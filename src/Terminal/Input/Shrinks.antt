-- ===== src/Terminal/Input/Shrinks.antt =====
-- What is read from the terminal is gone.
use sc4051_distributed_banki.Base.{
  ℕ, ◌-◌, ◌^◌, ◌≤◌, ◌≡◌, refl, Bool, true, false, Option, none, some, [], ◌∷◌, length, ltb, leb,
  ◌==◌, Bool-cases, inl, inr, arith, drop,
}
use sc4051_distributed_banki.Base.Chars.{
  is_space, is_digit, drop_spaces, read_sign, read_digits, drop_digits,
}
use sc4051_distributed_banki.Memory.{Bytes}
use sc4051_distributed_banki.Terminal.Input.{
  newline, ensure_clean_buffer, getline, ignore_line, read_line, to_int, after_int, read_int,
  wait_for_enter,
}

drop_spaces-length : (s : Bytes) → length (drop_spaces s) ≤ length s
drop_spaces-length [] = omega arith
drop_spaces-length (c ∷ s) = elim (Bool-cases (is_space c)) [
  | inl space ↦ rw space (omega (arith, drop_spaces-length s))
  | inr other ↦ rw other (omega arith)
]

drop_digits-length : (s : Bytes) → length (drop_digits s) ≤ length s
drop_digits-length [] = omega arith
drop_digits-length (c ∷ s) = elim (Bool-cases (is_digit c)) [
  | inl digit ↦ rw digit (omega (arith, drop_digits-length s))
  | inr other ↦ rw other (omega arith)
]

read_sign-length : (s : Bytes) → length (read_sign s).1 ≤ length s
read_sign-length [] = omega arith
read_sign-length (c ∷ s) = elim (Bool-cases (c == 45)) [
  | inl minus ↦ rw minus (omega arith)
  | inr not_minus ↦ elim (Bool-cases (c == 43)) [
    | inl plus ↦ rw (not_minus, plus) (omega arith)
    | inr other ↦ rw (not_minus, other) (omega arith)
  ]
]

ignore_line-length : (s : Bytes) → length (ignore_line s) ≤ length s - 1
ignore_line-length [] = omega arith
ignore_line-length (c ∷ s) = elim (Bool-cases (c == newline)) [
  | inl ends ↦ rw ends (omega arith)
  | inr more ↦ rw more (omega (arith, ignore_line-length s))
]

getline-length : (s : Bytes) → length (getline s).1 ≤ length s
getline-length [] = omega arith
getline-length (c ∷ s) = elim (Bool-cases (c == newline)) [
  | inl ends ↦ rw ends (omega arith)
  | inr more ↦ rw more (omega (arith, getline-length s))
]

ensure-length : (s : Bytes) → length (ensure_clean_buffer s) ≤ length s
unfolding ensure_clean_buffer
ensure-length [] = omega arith
ensure-length (c ∷ s) = elim (Bool-cases (c == newline)) [
  | inl left ↦ rw left (omega arith)
  | inr other ↦ rw other (omega arith)
]

pub read_line-length : (s : Bytes) → length (read_line s).1 ≤ length s
unfolding read_line
read_line-length s = omega (arith, getline-length (ensure_clean_buffer s), ensure-length s)

no_digits : (c : ℕ) (s : Bytes) → is_digit c ≡ false → read_digits none (c ∷ s) ≡ none
no_digits c s other = rw other refl

-- A number has a digit in front.
digits-length :
    (s : Bytes) (n : ℕ) → read_digits none s ≡ some n → length (drop_digits s) ≤ length s - 1
digits-length [] n h = omega arith
digits-length (c ∷ s) n h = elim (Bool-cases (is_digit c)) [
  | inl digit ↦ rw digit (omega (arith, drop_digits-length s))
  | inr other ↦ absurd (let e = no_digits c s other in cc)
]

after_int-length :
    (negative : Bool) (o : Option ℕ) (s : Bytes)
    → read_digits none s ≡ o
    → length (after_int (to_int negative o) s).1 ≤ length s - 1
after_int-length true none s e = ignore_line-length s
after_int-length false none s e = ignore_line-length s
after_int-length true (some n) s e = elim (Bool-cases (leb n (2 ^ 31))) [
  | inl fits ↦ rw fits (digits-length s n e)
  | inr large ↦ rw large (ignore_line-length s)
]
after_int-length false (some n) s e = elim (Bool-cases (ltb n (2 ^ 31))) [
  | inl fits ↦ rw fits (digits-length s n e)
  | inr large ↦ rw large (ignore_line-length s)
]

-- A call of `read_int` takes at least one byte, where there is any.
pub read_int-length : (s : Bytes) → length (read_int s).1 ≤ length s - 1
unfolding read_int
read_int-length s =
    let (negative, digits) = read_sign (drop_spaces s) in
    omega (
      arith,
      after_int-length negative (read_digits none digits) digits refl,
      read_sign-length (drop_spaces s),
      drop_spaces-length s,
    )

drop_one : (s : Bytes) → length (drop 1 s) ≤ length s
drop_one [] = omega arith
drop_one (c ∷ s) = omega arith

pub wait_for_enter-length : (s : Bytes) → length (wait_for_enter s) ≤ length s
unfolding wait_for_enter
wait_for_enter-length s = omega (arith, drop_one (ignore_line s), ignore_line-length s)
