-- ===== src/Client/Input/Asked.antt =====
-- What a dialogue can end with.
use sc4051_distributed_banki.Base.{
  ℕ, zero, suc, ◌<◌, ◌^◌, ◌≡◌, refl, Bool, true, Option, none, some, inl, inr, ◌∷◌, Bool-cases,
  if◌then◌else◌, arith, ltb,
}
use sc4051_distributed_banki.Base.Outcome.{
  InternalError, Result, ok, fail, crash, unfinished, user_canceled,
}
use sc4051_distributed_banki.Base.Text.{codes}
use sc4051_distributed_banki.Base.Integers.{ℤ, pos, negsuc}
use sc4051_distributed_banki.Memory.{Bytes}
use sc4051_distributed_banki.Client.State.{
  Client, Io, Services, continue, ◌>>=◌, ◌>>◌, pure, raise, say, Parsed, value, invalid_argument,
  out_of_range, read_line,
}
use sc4051_distributed_banki.Client.Text.{trim_string, same_text, is_alpha, upper_case}
use sc4051_distributed_banki.Client.Number.{
  Judged, accepted, refused, judge_uint32, judge_double, cast_uint32, cast_double, stoll,
}
use sc4051_distributed_banki.Client.Input.{
  ask, get_validated_uint32, get_validated_double, get_validated_string, get_validated_password,
  judge_text, is_password, judge_found, judge_currency, string_to_currency, get_validated_currency,
}

-- A run that ends, with a value of which P holds or an error of the program.
abbrev pub Ensures : {A : Type 0} → (A → Type 0) → Result A → Type 0
Ensures P (ok a) = P a
Ensures P (fail e) = Unit
Ensures P crash = ⊥
Ensures P unfinished = ⊥

abbrev pub Always : {A : Type 0} → (A → Type 0) → Io A → Type 0
Always P m = (c : Client) → Ensures P (m c).0

continue-Ensures :
    {A B : Type 0} (P : A → Type 0) (Q : B → Type 0) (r : Result A) (f : A → Io B) (c : Client)
    → Ensures P r
    → ((a : A) → P a → Always Q (f a))
    → Ensures Q (continue r f c).0
continue-Ensures P Q (ok a) f c h k = k a h c
continue-Ensures P Q (fail e) f c h k = tt
continue-Ensures P Q crash f c h k = h
continue-Ensures P Q unfinished f c h k = h

pub bind-Always :
    {A B : Type 0} (P : A → Type 0) (Q : B → Type 0) (m : Io A) (f : A → Io B)
    → Always P m
    → ((a : A) → P a → Always Q (f a))
    → Always Q (m >>= f)
bind-Always P Q m f h k c = continue-Ensures P Q (m c).0 f (m c).1 (h c) k

-- What is accepted is what the test accepted.
abbrev Allows : {A : Type 0} → (A → Type 0) → Judged A → Type 0
Allows P (accepted a) = P a
Allows P (refused o) = Unit

read_line-Always : Always (λ (line : Bytes). Unit) read_line
unfolding read_line
read_line-Always c = tt

module _ {A : Type 0} (P : A → Type 0) (prompt : Bytes) (judge : Bytes → Judged A)
    (final : InternalError) (h : (input : Bytes) → Allows P (judge input)) where
  judged :
      (j : Judged A) (next : Io A)
      → Allows P j
      → Always P next
      → Always P (elim j [ accepted a ↦ pure a | refused message ↦ (say message >> next) ])
  judged (accepted a) next ok_here ih c = ok_here
  judged (refused message) next ok_here ih c = ih (record c { screen = message ∷ c.screen })

  -- A dialogue ends with a value that its test accepted, or with an error.
  pub ask-Always : (tries : ℕ) → Always P (ask tries prompt judge final)
  unfolding ask
  ask-Always zero c = tt
  ask-Always (suc tries) c =
      bind-Always (λ (line : Bytes). Unit) P read_line _ read_line-Always
        (line_read (ask-Always tries)) (record c { screen = _ ∷ c.screen })
    where
      line_read :
          Always P (ask tries prompt judge final)
          → (line : Bytes) → Unit {0}
          → Always P (
              if same_text (trim_string line) (codes "quit")
              then raise user_canceled
              else elim (judge (trim_string line)) [
                | accepted a ↦ pure a
                | refused message ↦ (say message >> ask tries prompt judge final)
              ])
      line_read ih line u = elim (Bool-cases (same_text (trim_string line) (codes "quit"))) [
        | inl quit ↦ rw quit (λ c'. tt)
        | inr more ↦ rw more (
            judged (judge (trim_string line)) (ask tries prompt judge final) (h (trim_string line))
              ih)
      ]

-- `getValidatedNumber<uint32_t>` returns numbers of 32 bits.
abbrev pub IsWord : ℕ → Type 0
IsWord n = n < 2 ^ 32

cast-IsWord : (prompt : Bytes) (x : Parsed ℤ) → Allows IsWord (cast_uint32 prompt x)
cast-IsWord prompt (value (pos n)) = elim (Bool-cases (ltb n (2 ^ 32))) [
  | inl fits ↦ rw fits (ground arith)
  | inr large ↦ rw large tt
]
cast-IsWord prompt (value (negsuc n)) = tt
cast-IsWord prompt invalid_argument = tt
cast-IsWord prompt out_of_range = tt

pub get_validated_uint32-IsWord : (prompt : Bytes) → Always IsWord (get_validated_uint32 prompt)
unfolding get_validated_uint32 judge_uint32
get_validated_uint32-IsWord prompt =
    ask-Always IsWord prompt _ _ (λ input. cast-IsWord prompt (stoll input)) 5

abbrev pub IsDouble : ℕ → Type 0
IsDouble v = v < 2 ^ 64

-- `std::stod` returns 64 bits.
abbrev pub ReturnsDoubles : Services → Type 0
ReturnsDoubles s = (input : Bytes) (v : ℕ) → s.stod input ≡ value v → IsDouble v

cast-IsDouble :
    (prompt : Bytes) (x : Parsed ℕ)
    → ((v : ℕ) → x ≡ value v → IsDouble v)
    → Allows IsDouble (cast_double prompt x)
cast-IsDouble prompt (value v) h = h v refl
cast-IsDouble prompt invalid_argument h = tt
cast-IsDouble prompt out_of_range h = tt

pub get_validated_double-IsDouble :
    (s : Services) (prompt : Bytes)
    → ReturnsDoubles s
    → Always IsDouble (get_validated_double s prompt)
unfolding get_validated_double judge_double
get_validated_double-IsDouble s prompt h =
    ask-Always IsDouble prompt _ _ (λ input. cast-IsDouble prompt (s.stod input) (h input)) 5

judge_text-test :
    (test : Bytes → Bool) (prompt input : Bytes)
    → Allows (λ (t : Bytes). test t ≡ true) (judge_text test prompt input)
judge_text-test test prompt input = elim (Bool-cases (test input)) [
  | inl passed ↦ rw passed passed
  | inr failed ↦ rw failed tt
]

-- A name has one letter at least and nothing but letters.
abbrev pub IsName : Bytes → Type 0
IsName name = is_alpha name ≡ true

pub get_validated_string-IsName : (prompt : Bytes) → Always IsName (get_validated_string prompt)
unfolding get_validated_string
get_validated_string-IsName prompt =
    ask-Always IsName prompt _ _ (judge_text-test is_alpha prompt) 5

-- A password has one to eight letters and digits.
abbrev pub IsPassword : Bytes → Type 0
IsPassword pwd = is_password pwd ≡ true

pub get_validated_password-IsPassword :
    (prompt : Bytes) → Always IsPassword (get_validated_password prompt)
unfolding get_validated_password
get_validated_password-IsPassword prompt =
    ask-Always IsPassword prompt _ _ (judge_text-test is_password prompt) 5

abbrev pub IsCurrency : ℕ → Type 0
IsCurrency cur = cur < 3

known-IsCurrency : (name : Bytes) (cur : ℕ) → string_to_currency name ≡ some cur → IsCurrency cur
known-IsCurrency name cur h = ground arith

found-IsCurrency :
    (prompt : Bytes) (o : Option ℕ)
    → ((cur : ℕ) → o ≡ some cur → IsCurrency cur)
    → Allows IsCurrency (judge_found prompt o)
found-IsCurrency prompt none h = tt
found-IsCurrency prompt (some cur) h = h cur refl

pub get_validated_currency-IsCurrency :
    (s : Services) (prompt : Bytes) → Always IsCurrency (get_validated_currency s prompt)
unfolding get_validated_currency judge_currency
get_validated_currency-IsCurrency s prompt =
    ask-Always IsCurrency prompt _ _
      (λ input. found-IsCurrency prompt _ (known-IsCurrency (upper_case s.toupper_negative input)))
      5
