-- ===== src/Base/Outcome.antt =====
-- client/include/utils/result.h and client/include/utils/internalError.h: `Result<T, InternalError>`.
-- `crash` and `unfinished` are no values of the class: a run that has undefined behaviour (a read
-- outside a buffer) or ends in an uncaught exception, and a model loop that is out of fuel.
use mathlib.Core.Path.{◌≡◌, refl, ap, fun_ext}
use mathlib.Core.Bool.{Bool, true, false}
use mathlib.Core.Option.{Option, none, some}

pub data InternalError : Type 0 where
  user_quit user_canceled bad_input bad_pw_len bad_status : InternalError
  invalid_service invalid_currency invalid_invocation_flag : InternalError
  invalid_address socket_create_failed send_failed receive_failed : InternalError
  bind_failed connect_failed send_timeout receive_timeout : InternalError
  encoding_error decoding_error encode_unknown_field encode_empty_command : InternalError
  decode_empty_data decode_unknown_field decode_field_overflow : InternalError
  decode_offset_overflow decode_length_mismatch decode_string_too_long : InternalError
  decode_field_mismatch serialize_error deserialize_error : InternalError
  deserialize_header_too_short deserialize_payload_overflow : InternalError
  deserialize_payload_int_overflow : InternalError

pub data Result {ℓ} (A : Type ℓ) : Type ℓ where
  ok : A → Result A
  fail : InternalError → Result A
  crash : Result A
  unfinished : Result A

-- `if (!sum) return Result::fail(e);`
abbrev pub or_fail {ℓ} : {A : Type ℓ} → Option A → InternalError → Result A
or_fail none e = fail e
or_fail (some a) e = ok a

-- `if (!test) return Result::fail(e);`
abbrev pub require : Bool → InternalError → Result (Unit {0})
require true e = ok tt
require false e = fail e

-- A read that is undefined where there is nothing to read.
abbrev pub or_crash {ℓ} : {A : Type ℓ} → Option A → Result A
or_crash none = crash
or_crash (some a) = ok a

-- The run returns, with a value or an error of the program.
abbrev pub Returns {ℓ} : {A : Type ℓ} → Result A → Type 0
Returns (ok a) = Unit
Returns (fail e) = Unit
Returns crash = ⊥
Returns unfinished = ⊥

infixl 5 ◌>>=◌ ◌>>◌
abbrev pub ◌>>=◌ {ℓ κ} : {A : Type ℓ} {B : Type κ} → Result A → (A → Result B) → Result B
ok a >>= f = f a
fail e >>= f = fail e
crash >>= f = crash
unfinished >>= f = unfinished

abbrev pub ◌>>◌ {ℓ} : {A : Type ℓ} → Result (Unit {0}) → Result A → Result A
first >> rest = first >>= λ _. rest

pub bind_assoc {ℓ κ μ} :
    {A : Type ℓ} {B : Type κ} {C : Type μ} (m : Result A) (f : A → Result B) (g : B → Result C)
    → (m >>= f >>= g) ≡ (m >>= λ a. f a >>= g)
bind_assoc (ok a) f g = refl
bind_assoc (fail e) f g = refl
bind_assoc crash f g = refl
bind_assoc unfinished f g = refl

pub bind_congr {ℓ κ} :
    {A : Type ℓ} {B : Type κ} (m : Result A) (f g : A → Result B)
    → ((a : A) → f a ≡ g a)
    → (m >>= f) ≡ (m >>= g)
bind_congr m f g h = ap (λ k. m >>= k) (fun_ext h)

-- A run returns one value.
pub same_value : {A : Type 0} (r : Result A) (a b : A) → r ≡ ok a → r ≡ ok b → a ≡ b
same_value r a b e f = cc
