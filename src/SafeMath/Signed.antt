-- ===== src/SafeMath/Signed.antt =====
-- client/include/utils/safemath.h where the common type is signed, of w bits.
use sc4051_distributed_banki.Base.{
  zero, ◌+◌, ◌*◌, ◌%◌, ◌<◌, ◌≤◌, leb, ltb-false, lt→ltb, Bool-cases, inl, inr, arith, ℕ, suc, ◌-◌,
  ◌^◌, ◌≡◌, refl, Option, none, some, Bool, true, false, not, ◌&&◌, ltb, if◌then◌else◌,
}
use native.Mathlib.Nat.{mod-eq_of_lt}
use native.Mathlib.Numerals.{unary_clauses}
use sc4051_distributed_banki.Base.Outcome.{Result, ok, crash}
use sc4051_distributed_banki.Base.Integers.{ℤ, pos, negsuc, difference, ◌+ℤ◌, ◌-ℤ◌}

abbrev pub is_negative : ℤ → Bool
is_negative (pos n) = false
is_negative (negsuc n) = true

-- The value is one of the type.
abbrev pub is_of_type : ℕ → ℤ → Bool
is_of_type w (pos n) = ltb n (2 ^ (w - 1))
is_of_type w (negsuc n) = ltb n (2 ^ (w - 1))

-- The residue modulo 2^w, and the value of the type that has it: the conversion to the type.
abbrev pub residue : ℕ → ℤ → ℕ
residue w (pos n) = n % 2 ^ w
residue w (negsuc n) = 2 ^ w - 1 - n % 2 ^ w

abbrev pub to_type : ℕ → ℤ → ℤ
to_type w x = let m = residue w x in if ltb m (2 ^ (w - 1)) then pos m else negsuc (2 ^ w - 1 - m)

-- The value of a sum or a difference, converted to the type. A type narrower than the 32 bits of int is
-- promoted to int, which holds it; at int and wider ones what overflows is undefined behaviour.
abbrev pub signed : ℕ → ℤ → Result ℤ
signed w x = if is_of_type w x then ok x else if ltb w 32 then ok (to_type w x) else crash

-- `(x ^ y) < 0`: the two differ in their highest bit.
abbrev pub signs_differ : ℤ → ℤ → Bool
signs_differ x y = if is_negative x then not (is_negative y) else is_negative y

abbrev pub checked : Bool → ℤ → Option ℤ
checked overflows result = if overflows then none else some result

abbrev pub map_result : {A B : Type 0} → (A → B) → Result A → Result B
map_result f (ok a) = ok (f a)
map_result f (Result.fail e) = Result.fail e
map_result f crash = crash
map_result f Result.unfinished = Result.unfinished

unfoldable pub signed_add : ℕ → ℤ → ℤ → Result (Option ℤ)
signed_add w ra rb =
    map_result (λ result. checked (signs_differ ra result && signs_differ rb result) result)
      (signed w (ra +ℤ rb))

unfoldable pub signed_minus : ℕ → ℤ → ℤ → Result (Option ℤ)
signed_minus w ra rb =
    map_result (λ result. checked (signs_differ ra rb && signs_differ ra result) result)
      (signed w (ra -ℤ rb))

and_not : (b : Bool) → (b && not b) ≡ false
and_not true = refl
and_not false = refl

not_and : (b : Bool) → (not b && b) ≡ false
not_and true = refl
not_and false = refl

sum_signs : (a b : ℤ) → (signs_differ a (a +ℤ b) && signs_differ b (a +ℤ b)) ≡ false
sum_signs (pos a) (pos b) = refl
sum_signs (pos a) (negsuc b) = and_not (is_negative (difference a (suc b)))
sum_signs (negsuc a) (pos b) = not_and (is_negative (difference b (suc a)))
sum_signs (negsuc a) (negsuc b) = refl

difference_signs : (a b : ℤ) → (signs_differ a b && signs_differ a (a -ℤ b)) ≡ false
difference_signs (pos a) (pos b) = refl
difference_signs (pos a) (negsuc b) = refl
difference_signs (negsuc a) (pos b) = refl
difference_signs (negsuc a) (negsuc b) = refl

pow_split : (w : ℕ) → 0 < w → 2 ^ w ≡ 2 * 2 ^ (w - 1)
pow_split zero h = absurd (omega arith)
pow_split (suc w) h = simp unary_clauses (omega arith)

-- The sign of a value that overflowed by less than the size of the type is the other one.
too_high : (w n : ℕ) → 0 < w → 2 ^ (w - 1) ≤ n → n < 2 ^ w → is_negative (to_type w (pos n)) ≡ true
too_high w n h low high = rw (mod-eq_of_lt high, ltb-false n (2 ^ (w - 1)) low) refl

too_low :
    (w n : ℕ) → 0 < w → 2 ^ (w - 1) ≤ n → n < 2 ^ w → is_negative (to_type w (negsuc n)) ≡ false
too_low w n h low high =
    rw (mod-eq_of_lt high, lt→ltb (2 ^ w - 1 - n) (2 ^ (w - 1)) (omega (arith, pow_split w h))) refl

-- A difference of values of the type's size is one of the type.
difference_in :
    (w a b : ℕ) → a < 2 ^ (w - 1) → b ≤ 2 ^ (w - 1) → is_of_type w (difference a b) ≡ true
difference_in w a b h k = elim (Bool-cases (leb b a)) [
  | inl below ↦ rw (below, lt→ltb (a - b) (2 ^ (w - 1)) (omega arith)) refl
  | inr above ↦ rw (above, lt→ltb (b - a - 1) (2 ^ (w - 1)) (ground arith)) refl
]

in_type : (w n : ℕ) → ltb n (2 ^ (w - 1)) ≡ true → n < 2 ^ (w - 1)
in_type w n h = ground arith

out_of_type : (w n : ℕ) → ltb n (2 ^ (w - 1)) ≡ false → 2 ^ (w - 1) ≤ n
out_of_type w n h = ground arith

sum_over :
    (w : ℕ) (a b : ℤ)
    → 0 < w
    → is_of_type w a ≡ true
    → is_of_type w b ≡ true
    → is_of_type w (a +ℤ b) ≡ false
    → (signs_differ a (to_type w (a +ℤ b)) && signs_differ b (to_type w (a +ℤ b))) ≡ true
sum_over w (pos a) (pos b) h ta tb over =
    rw
      (too_high w (a + b) h (out_of_type w (a + b) over)
        (omega (arith, in_type w a ta, in_type w b tb, pow_split w h)))
      refl
sum_over w (pos a) (negsuc b) h ta tb over =
    absurd
      (let fits = difference_in w a (suc b) (in_type w a ta) (omega (arith, in_type w b tb)) in cc)
sum_over w (negsuc a) (pos b) h ta tb over =
    absurd
      (let fits = difference_in w b (suc a) (in_type w b tb) (omega (arith, in_type w a ta)) in cc)
sum_over w (negsuc a) (negsuc b) h ta tb over =
    rw
      (too_low w (suc (a + b)) h (out_of_type w (suc (a + b)) over)
        (omega (arith, in_type w a ta, in_type w b tb, pow_split w h)))
      refl

difference_over :
    (w : ℕ) (a b : ℤ)
    → 0 < w
    → is_of_type w a ≡ true
    → is_of_type w b ≡ true
    → is_of_type w (a -ℤ b) ≡ false
    → (signs_differ a b && signs_differ a (to_type w (a -ℤ b))) ≡ true
difference_over w (pos a) (pos b) h ta tb over =
    absurd (let fits = difference_in w a b (in_type w a ta) (omega (arith, in_type w b tb)) in cc)
difference_over w (pos a) (negsuc b) h ta tb over =
    too_high w (a + suc b) h (out_of_type w (a + suc b) over)
      (omega (arith, in_type w a ta, in_type w b tb, pow_split w h))
difference_over w (negsuc a) (pos b) h ta tb over =
    rw
      (too_low w (a + b) h (out_of_type w (a + b) over)
        (omega (arith, in_type w a ta, in_type w b tb, pow_split w h)))
      refl
difference_over w (negsuc a) (negsuc b) h ta tb over =
    absurd (let fits = difference_in w b a (in_type w b tb) (omega (arith, in_type w a ta)) in cc)

-- What a test makes of a value that the type holds or not.
abbrev verdict : ℕ → ℤ → Result (Option ℤ)
verdict w x = if is_of_type w x then ok (some x) else if ltb w 32 then ok none else crash

tested :
    (w : ℕ) (x : ℤ) (overflows : ℤ → Bool)
    → overflows x ≡ false
    → (is_of_type w x ≡ false → overflows (to_type w x) ≡ true)
    → map_result (λ result. checked (overflows result) result) (signed w x) ≡ verdict w x
tested w x overflows within over = elim (Bool-cases (is_of_type w x)) [
  | inl held ↦ rw (held, within) refl
  | inr lost ↦ elim (Bool-cases (ltb w 32)) [
    | inl narrow ↦ rw (lost, narrow, over lost) refl
    | inr wide ↦ rw (lost, wide) refl
  ]
]

-- At a signed type of w bits the two functions return the sum and the difference of two of its values
-- where the type holds them. Else they return nullopt where the type is narrower than the 32 bits of int,
-- and have undefined behaviour, before the test for nullopt, where it is not.
pub signed_exact :
    (w : ℕ) (a b : ℤ)
    → 0 < w
    → is_of_type w a ≡ true
    → is_of_type w b ≡ true
    → (signed_add w a b ≡ (
        if is_of_type w (a +ℤ b) then ok (some (a +ℤ b)) else if ltb w 32 then ok none else crash))
      × (signed_minus w a b ≡ (
          if is_of_type w (a -ℤ b)
          then ok (some (a -ℤ b))
          else if ltb w 32
          then ok none
          else crash))
unfolding signed_add signed_minus
signed_exact w a b h ta tb = (
  tested w (a +ℤ b) _ (sum_signs a b) (sum_over w a b h ta tb),
  tested w (a -ℤ b) _ (difference_signs a b) (difference_over w a b h ta tb),
)
