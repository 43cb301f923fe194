-- ===== src/Base/Bits.antt =====
-- `&` with a byte of ones and `|` of fields that do not overlap, as arithmetic.
use Prim.Native.Nat.{
  ℕ, zero, suc, ◌+◌, ◌-◌, ◌*◌, ◌/◌, ◌%◌, ◌^◌, ◌≤◌, ◌<◌, min, max, bit_and, bit_or, digits,
  bit_and-bitwise, bit_or-bitwise,
}
use mathlib.Core.Path.{◌≡◌, sym, ap}
use native.Mathlib.Nat.{pow-suc, pow-succ', one-le-pow, div-div-eq-div-mul, div-add-mod}
use native.Mathlib.Omega.{arith}

-- What the native `&` and `|` stand for, with the count of digits to go written out.
abbrev and_upto : ℕ → ℕ → ℕ → ℕ
and_upto = digits (λ b. zero) min

abbrev or_upto : ℕ → ℕ → ℕ → ℕ
or_upto = digits (λ b. b) max

half_ones : (k : ℕ) → ((2 ^ suc k - 1) / 2 ≡ 2 ^ k - 1) × ((2 ^ suc k - 1) % 2 ≡ 1)
half_ones k = omega (arith, pow-suc 2 k, one-le-pow k 2 (omega arith))

half_double : (c k : ℕ) → (c * 2 ^ suc k / 2 ≡ c * 2 ^ k) × (c * 2 ^ suc k % 2 ≡ 0)
half_double c k = omega (arith, ap (λ (t : ℕ). c * t) (pow-suc 2 k))

-- Dividing by a power of two, one digit at a time.
div_pow_suc : (a k : ℕ) → a / 2 ^ suc k ≡ a / 2 / 2 ^ k
div_pow_suc a k = rw (pow-succ' 2 k) (sym (div-div-eq-div-mul a 2 (2 ^ k)))

mod_pow_suc : (a k : ℕ) → a % 2 ^ suc k ≡ a / 2 % 2 ^ k * 2 + a % 2
mod_pow_suc a k = omega (
  arith,
  div-add-mod a (2 ^ suc k),
  div-add-mod (a / 2) (2 ^ k),
  ap (λ (t : ℕ). t * 2 ^ suc k) (div_pow_suc a k),
  ap (λ (t : ℕ). a / 2 / 2 ^ k * t) (pow-suc 2 k),
)

-- k ones keep the k lowest digits.
and_ones : (k n a : ℕ) → a ≤ n → and_upto n a (2 ^ k - 1) ≡ a % 2 ^ k
and_ones k zero zero h = grind (arith, one-le-pow k 2)
and_ones k zero (suc a) h = absurd (omega arith)
and_ones k (suc n) zero h = grind (arith, one-le-pow k 2)
and_ones zero (suc n) (suc a) h = omega (arith, and_ones zero n (suc a / 2) (omega arith))
and_ones (suc k) (suc n) (suc a) h =
    rw ((half_ones k).0, (half_ones k).1)
      (omega (arith, and_ones k n (suc a / 2) (omega arith), mod_pow_suc (suc a) k))

-- The same ones moved j places up.
and_byte : (j n a : ℕ) → a ≤ n → and_upto n a (255 * 2 ^ j) ≡ a / 2 ^ j % 256 * 2 ^ j
and_byte zero n a h = omega (arith, and_ones 8 n a h)
and_byte (suc j) zero zero h = grind (arith, one-le-pow (suc j) 2)
and_byte (suc j) zero (suc a) h = absurd (omega arith)
and_byte (suc j) (suc n) zero h = grind (arith, one-le-pow (suc j) 2)
and_byte (suc j) (suc n) (suc a) h =
    rw ((half_double 255 j).0, (half_double 255 j).1, div_pow_suc (suc a) j)
      (omega (
        arith,
        and_byte j n (suc a / 2) (omega arith),
        ap (λ (t : ℕ). suc a / 2 / 2 ^ j % 256 * t) (pow-suc 2 j),
      ))

or_fields : (k n a c : ℕ) → a ≤ n → a < 2 ^ k → or_upto n a (c * 2 ^ k) ≡ a + c * 2 ^ k
or_fields k zero zero c h l = omega arith
or_fields k zero (suc a) c h l = absurd (omega arith)
or_fields k (suc n) zero c h l = omega arith
or_fields zero (suc n) (suc a) c h l = absurd (omega arith)
or_fields (suc k) (suc n) (suc a) c h l =
    let l' : suc a / 2 < 2 ^ k = omega (arith, pow-suc 2 k) in
    rw ((half_double c k).0, (half_double c k).1)
      (omega
        (arith, or_fields k n (suc a / 2) c (omega arith) l', ap (λ (t : ℕ). c * t) (pow-suc 2 k)))

-- `x & (0xFF << j)` is the byte of `x` at bit j, in its place.
pub bit_and-byte : (j x : ℕ) → bit_and x (255 * 2 ^ j) ≡ x / 2 ^ j % 256 * 2 ^ j
bit_and-byte j x = rw bit_and-bitwise (and_byte j x x (omega arith))

-- `|` of a number below 2 ^ k and a multiple of 2 ^ k is their sum.
pub bit_or-fields : (k x c : ℕ) → x < 2 ^ k → bit_or x (c * 2 ^ k) ≡ x + c * 2 ^ k
bit_or-fields k x c h = rw bit_or-bitwise (or_fields k x x c (omega arith) h)
