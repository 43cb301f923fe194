-- ===== src/Client/Text/Lines.antt =====
-- Texts without a space come through `trimString` as they are.
use sc4051_distributed_banki.Base.{
  ℕ, ◌+◌, ◌^◌, ◌<◌, ◌≡◌, refl, Bool, true, false, [], ◌∷◌, All, All-append, ◌==◌, Bool-cases, inl,
  inr, arith,
}
use sc4051_distributed_banki.Base.Chars.{is_space, is_digit, drop_spaces}
use sc4051_distributed_banki.Base.Chars.Digits.{digits_head, digits-All}
use sc4051_distributed_banki.Base.Text.{decimal, codes}
use mathlib.Core.Path.{subst}
use mathlib.Core.List.{reverse, reverse-cons, reverse-reverse}
use sc4051_distributed_banki.Memory.{Bytes}
use sc4051_distributed_banki.Terminal.Input.{newline}
use sc4051_distributed_banki.Terminal.Input.Typed.{IsText, IsLine}
use sc4051_distributed_banki.Client.Text.{
  all_of, is_alpha_char, is_alnum_char, is_alpha, is_alpha_numeric, trim_string, same_text,
}

-- What passes a test has what the test ensures.
pub all_of-All :
    (P : ℕ → Type 0) (test : ℕ → Bool) (s : Bytes)
    → ((c : ℕ) → test c ≡ true → P c)
    → all_of test s ≡ true
    → All P s
all_of-All P test [] h e = tt
all_of-All P test (c ∷ s) h e = elim (Bool-cases (test c)) [
  | inl passed ↦ (h c passed, all_of-All P test s h (rw passed at e))
  | inr failed ↦ let no : false ≡ true = rw failed at e in cc
]

-- A character that is no space, and so no newline either.
abbrev pub IsDark : ℕ → Type 0
IsDark c = (is_space c ≡ false) × ((c == newline) ≡ false)

All-reverse : (P : ℕ → Type 0) (s : Bytes) → All P s → All P (reverse s)
All-reverse P [] h = tt
All-reverse P (c ∷ s) h =
    rw (reverse-cons c s) (All-append P (reverse s) (c ∷ []) (All-reverse P s h.1) (h.0, tt))

drop_spaces-IsDark : (s : Bytes) → All IsDark s → drop_spaces s ≡ s
drop_spaces-IsDark [] h = refl
drop_spaces-IsDark (c ∷ s) h = rw h.0.0 refl

pub trim_string-IsDark : (s : Bytes) → All IsDark s → trim_string s ≡ s
unfolding trim_string
trim_string-IsDark s h =
    rw (drop_spaces-IsDark s h, drop_spaces-IsDark (reverse s) (All-reverse IsDark s h))
      (reverse-reverse s)

dark-IsText : (s : Bytes) → All IsDark s → IsText s
dark-IsText [] h = tt
dark-IsText (c ∷ s) h = (h.0.1, dark-IsText s h.1)

letter-IsDark : (c : ℕ) → is_alpha_char c ≡ true → IsDark c
letter-IsDark c h = (ground arith, ground arith)

alnum-IsDark : (c : ℕ) → is_alnum_char c ≡ true → IsDark c
alnum-IsDark c h = (ground arith, ground arith)

digit-IsDark : (c : ℕ) → is_digit c ≡ true → IsDark c
digit-IsDark c h = (ground arith, ground arith)

All-map : (P Q : ℕ → Type 0) (s : Bytes) → ((c : ℕ) → P c → Q c) → All P s → All Q s
All-map P Q [] f h = tt
All-map P Q (c ∷ s) f h = (f c h.0, All-map P Q s f h.1)

decimal-IsDark : (n : ℕ) → All IsDark (decimal n)
decimal-IsDark n =
    All-map (λ c. is_digit c ≡ true) IsDark (decimal n) digit-IsDark (digits-All 20 n)

-- A text without a space that is not "quit": `trimString` leaves it alone.
pub record IsAnswer (text : Bytes) : Type 0 where
  pub dark : All IsDark text
  pub some_text : IsLine text
  pub no_quit : same_text text (codes "quit") ≡ false

dark-IsLine : (c : ℕ) (s : Bytes) → All IsDark (c ∷ s) → IsLine (c ∷ s)
dark-IsLine c s h = dark-IsText (c ∷ s) h

pub name-IsAnswer :
    (name : Bytes) → is_alpha name ≡ true → same_text name (codes "quit") ≡ false → IsAnswer name
unfolding is_alpha
name-IsAnswer [] h no_quit = absurd cc
name-IsAnswer (c ∷ s) h no_quit =
    let dark = all_of-All IsDark is_alpha_char (c ∷ s) letter-IsDark h in
    record { dark = dark; some_text = dark-IsLine c s dark; no_quit = no_quit }

pub alnum-IsAnswer :
    (text : Bytes)
    → is_alpha_numeric text ≡ true
    → same_text text (codes "quit") ≡ false
    → IsAnswer text
unfolding is_alpha_numeric
alnum-IsAnswer [] h no_quit = absurd cc
alnum-IsAnswer (c ∷ s) h no_quit =
    let dark = all_of-All IsDark is_alnum_char (c ∷ s) alnum-IsDark h in
    record { dark = dark; some_text = dark-IsLine c s dark; no_quit = no_quit }

digit_no_quit : (d : ℕ) (t : Bytes) → d < 10 → same_text ((48 + d) ∷ t) (codes "quit") ≡ false
digit_no_quit d t h = ground arith

pub decimal-IsAnswer : (n : ℕ) → n < 10 ^ 20 → IsAnswer (decimal n)
decimal-IsAnswer n h =
    let (d, t, digit, e) = digits_head 20 n h (omega arith) in
    let dark : All IsDark ((48 + d) ∷ t) = subst (All IsDark) e (decimal-IsDark n) in
    record {
      dark = decimal-IsDark n;
      some_text = rw e (dark-IsLine (48 + d) t dark);
      no_quit = rw e (digit_no_quit d t digit);
    }
