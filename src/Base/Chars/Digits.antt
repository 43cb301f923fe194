-- ===== src/Base/Chars/Digits.antt =====
-- A number that `std::to_string` wrote is read back as itself.
use Prim.Native.Nat.{ℕ, zero, suc, ◌+◌, ◌-◌, ◌*◌, ◌/◌, ◌%◌, ◌^◌, ◌<◌}
use mathlib.Core.Path.{◌≡◌, refl, ap, ◌∙◌}
use mathlib.Core.Logic.{inl, inr}
use mathlib.Core.Bool.{true, false}
use mathlib.Core.Option.{none, some}
use mathlib.Core.List.{List, [], ◌∷◌, ◌++◌, append_assoc}
use native.Mathlib.Omega.{arith}
use sc4051_distributed_banki.Base.Tests.{ltb, Bool-cases}
use sc4051_distributed_banki.Base.Lists.{All, All-append}
use sc4051_distributed_banki.Base.Text.{digits, decimal}
use sc4051_distributed_banki.Base.Chars.{
  is_digit, is_space, drop_spaces, read_sign, read_digits, drop_digits,
}

pub digit-is_digit : (d : ℕ) → d < 10 → is_digit (48 + d) ≡ true
digit-is_digit d h = ground arith

read_one_more :
    (n d : ℕ) (s : List ℕ)
    → d < 10
    → read_digits (some n) ((48 + d) ∷ s) ≡ read_digits (some (10 * n + d)) s
read_one_more n d s h =
    let same : 48 + d - 48 ≡ d = omega arith in rw (digit-is_digit d h, same) refl

read_first :
    (d : ℕ) (s : List ℕ) → d < 10 → read_digits none ((48 + d) ∷ s) ≡ read_digits (some d) s
read_first d s h = let same : 48 + d - 48 ≡ d = omega arith in rw (digit-is_digit d h, same) refl

fewer : (fuel n : ℕ) → n < 10 ^ suc fuel → n / 10 < 10 ^ fuel
fewer fuel n h = omega arith

some_fuel : (fuel n : ℕ) → n < 10 ^ suc fuel → ltb n 10 ≡ false → 0 < fuel
some_fuel zero n h large = absurd (ground arith)
some_fuel (suc fuel) n h large = omega arith

split_last :
    (fuel n : ℕ) (s : List ℕ)
    → ltb n 10 ≡ false
    → digits (suc fuel) n ++ s ≡ digits fuel (n / 10) ++ (48 + n % 10) ∷ s
split_last fuel n s large = rw large (append_assoc (digits fuel (n / 10)) _ s)

-- Reading the digits of n and what follows them is reading on from n.
pub read_digits-digits :
    (fuel n : ℕ) (s : List ℕ)
    → n < 10 ^ fuel
    → 0 < fuel
    → read_digits none (digits fuel n ++ s) ≡ read_digits (some n) s
read_digits-digits zero n s h k = absurd (omega arith)
read_digits-digits (suc fuel) n s h k = elim (Bool-cases (ltb n 10)) [
  | inl small ↦ rw small (read_first n s (ground arith))
  | inr large ↦ rw (split_last fuel n s large) (
      read_digits-digits fuel (n / 10) ((48 + n % 10) ∷ s) (fewer fuel n h)
        (some_fuel fuel n h large)
      ∙ read_one_more (n / 10) (n % 10) s (omega arith)
      ∙ ap (λ m. read_digits (some m) s) (omega arith))
]

pub drop_digits-digits :
    (fuel n : ℕ) (s : List ℕ)
    → n < 10 ^ fuel
    → 0 < fuel
    → drop_digits (digits fuel n ++ s) ≡ drop_digits s
drop_digits-digits zero n s h k = absurd (omega arith)
drop_digits-digits (suc fuel) n s h k = elim (Bool-cases (ltb n 10)) [
  | inl small ↦ let digit = digit-is_digit n (ground arith) in rw (small, digit) refl
  | inr large ↦
      let digit = digit-is_digit (n % 10) (omega arith) in
      rw (split_last fuel n s large) (
        drop_digits-digits fuel (n / 10) ((48 + n % 10) ∷ s) (fewer fuel n h)
          (some_fuel fuel n h large)
        ∙ rw digit refl)
]

-- The first character is a digit.
pub digits_head :
    (fuel n : ℕ)
    → n < 10 ^ fuel
    → 0 < fuel
    → (d : ℕ) × (t : List ℕ) × (d < 10) × (digits fuel n ≡ (48 + d) ∷ t)
digits_head zero n h k = absurd (omega arith)
digits_head (suc fuel) n h k = elim (Bool-cases (ltb n 10)) [
  | inl small ↦ (n, [], ground arith, rw small refl)
  | inr large ↦
      let (d, t, digit, e) =
        digits_head fuel (n / 10) (fewer fuel n h) (some_fuel fuel n h large) in
      (d, t ++ (48 + n % 10) ∷ [], digit, rw (large, e) refl)
]

-- All of them are digits.
pub digits-All : (fuel n : ℕ) → All (λ c. is_digit c ≡ true) (digits fuel n)
digits-All zero n = tt
digits-All (suc fuel) n = elim (Bool-cases (ltb n 10)) [
  | inl small ↦ rw small (digit-is_digit n (ground arith), tt)
  | inr large ↦ rw large (
      All-append (λ c. is_digit c ≡ true) (digits fuel (n / 10)) ((48 + n % 10) ∷ [])
        (digits-All fuel (n / 10)) (digit-is_digit (n % 10) (omega arith), tt))
]

digit-is_space : (d : ℕ) → d < 10 → is_space (48 + d) ≡ false
digit-is_space d h = ground arith

head_kept :
    (d : ℕ) (t : List ℕ)
    → d < 10
    → (drop_spaces ((48 + d) ∷ t) ≡ (48 + d) ∷ t)
      × (read_sign ((48 + d) ∷ t) ≡ (false, (48 + d) ∷ t))
head_kept d t h = (rw (digit-is_space d h) refl, ground arith)

-- A number up to 20 digits has no space and no sign in front.
pub decimal_alone :
    (n : ℕ) (s : List ℕ)
    → n < 10 ^ 20
    → (drop_spaces (decimal n ++ s) ≡ decimal n ++ s)
      × (read_sign (decimal n ++ s) ≡ (false, decimal n ++ s))
decimal_alone n s h =
    let (d, t, digit, e) = digits_head 20 n h (omega arith) in rw e (head_kept d (t ++ s) digit)

pub read_digits-decimal :
    (n : ℕ) (s : List ℕ) → n < 10 ^ 20 → read_digits none (decimal n ++ s) ≡ read_digits (some n) s
read_digits-decimal n s h = read_digits-digits 20 n s h (omega arith)

pub drop_digits-decimal :
    (n : ℕ) (s : List ℕ) → n < 10 ^ 20 → drop_digits (decimal n ++ s) ≡ drop_digits s
drop_digits-decimal n s h = drop_digits-digits 20 n s h (omega arith)
