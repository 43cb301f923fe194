-- ===== src/SafeMath/Bounds.antt =====
-- What the overflow checks decide, and what `msb_index` finds.
use sc4051_distributed_banki.Base.{
  ℕ, zero, suc, ◌+◌, ◌-◌, ◌/◌, ◌%◌, ◌^◌, ◌≤◌, ◌<◌, ◌≡◌, ◌≢◌, none, some, ltb, if◌then◌else◌, arith,
  ltb-false, Bool-cases, inl, inr, ◌==◌,
}
use sc4051_distributed_banki.SafeMath.{safe_add, safe_minus, index, msb_loop, msb_index}
use native.Mathlib.Nat.{mod-eq_of_lt, mod-eq-sub-mod, pow-suc}

-- A sum of two remainders wraps once at most.
wrap_once : (m x : ℕ) → x < m + m → x % m ≡ (if ltb x m then x else x - m)
wrap_once m x h = elim (Bool-cases (ltb x m)) [
  | inl e ↦ rw e (mod-eq_of_lt (ground arith))
  | inr e ↦
      let le : m ≤ x = ground arith in
      rw (e, mod-eq-sub-mod le) (mod-eq_of_lt (omega (arith, ltb-false x m)))
]

-- On two numbers of w bits `safe_add` returns their sum exactly when it fits w bits.
pub safe_add_exact :
    (w a b : ℕ)
    → a < 2 ^ w
    → b < 2 ^ w
    → safe_add w a b ≡ (if ltb (a + b) (2 ^ w) then some (a + b) else none)
unfolding safe_add
safe_add_exact w a b ha hb =
    rw (mod-eq_of_lt ha, mod-eq_of_lt hb) (ground (arith, wrap_once (2 ^ w) (a + b)))

-- On two numbers of w bits `safe_minus` returns their difference exactly when it is not negative.
pub safe_minus_exact :
    (w a b : ℕ)
    → a < 2 ^ w
    → b < 2 ^ w
    → safe_minus w a b ≡ (if ltb a b then none else some (a - b))
unfolding safe_minus
safe_minus_exact w a b ha hb =
    rw (mod-eq_of_lt ha, mod-eq_of_lt hb) (ground (arith, wrap_once (2 ^ w) (a + 2 ^ w - b)))

pub safe_add64 : (a b : ℕ) → a + b < 2 ^ 64 → safe_add 64 a b ≡ some (a + b)
unfolding safe_add
safe_add64 a b h = ground arith

msb_loop_finds :
    (fuel x i : ℕ)
    → x ≢ 0
    → x < 2 ^ fuel
    → (k : ℕ) × (msb_loop fuel x i ≡ some (i + k)) × (2 ^ k ≤ x) × (x < 2 ^ suc k)
unfolding msb_loop
msb_loop_finds zero x i h l = absurd (omega arith)
msb_loop_finds (suc fuel) x i h l = elim (Bool-cases (x / 2 == 0)) [
  | inl e ↦ (0, ground arith, ground arith, ground arith)
  | inr e ↦
      let (k, found, lo, hi) =
        msb_loop_finds fuel (x / 2) (i + 1) (ground arith) (omega (arith, pow-suc 2 fuel)) in
      (
        suc k,
        ground (arith, found),
        omega (arith, pow-suc 2 k),
        omega (arith, pow-suc 2 k, pow-suc 2 (suc k)),
      )
]

-- On a number of 32 bits that is not 0, `msb_index` ends and returns the index of the highest bit.
pub msb_index_highest :
    (x : ℕ)
    → x ≢ 0
    → x < 2 ^ 32
    → (k : ℕ) × (msb_index x ≡ some (index k)) × (2 ^ k ≤ x) × (x < 2 ^ suc k)
unfolding msb_index
msb_index_highest x h l =
    let (k, found, lo, hi) = msb_loop_finds 32 x 0 h l in (k, ground (arith, found), lo, hi)
