-- ===== src/SafeMath/Tests.antt =====
-- The arithmetic theorems at concrete inputs.
use sc4051_distributed_banki.Base.{
  refl, ℕ, ◌+◌, ◌-◌, ◌^◌, ◌≤◌, ◌<◌, ◌≡◌, none, some, suc, arith, ltb, if◌then◌else◌,
}
use sc4051_distributed_banki.SafeMath.{safe_add, safe_minus, index, msb_index}
use sc4051_distributed_banki.Base.Outcome.{ok, crash}
use sc4051_distributed_banki.Base.Integers.{pos}
use sc4051_distributed_banki.SafeMath.Signed.{signed_add, signed_minus, signed_exact}
use sc4051_distributed_banki.SafeMath.Bounds.{safe_add_exact, safe_minus_exact, msb_index_highest}

safe_add_exact_example :
    safe_add 32 0xffff_ffff 1
    ≡ (if ltb (0xffff_ffff + 1) (2 ^ 32) then some (0xffff_ffff + 1) else none)
safe_add_exact_example = safe_add_exact 32 0xffff_ffff 1 (omega arith) (omega arith)

safe_minus_exact_example : safe_minus 8 5 6 ≡ (if ltb 5 6 then none else some (5 - 6))
safe_minus_exact_example = safe_minus_exact 8 5 6 (omega arith) (omega arith)

msb_index_highest_example :
    (k : ℕ) × (msb_index 40 ≡ some (index k)) × (2 ^ k ≤ 40) × (40 < 2 ^ suc k)
msb_index_highest_example = msb_index_highest 40 (omega arith) (omega arith)

-- The largest short, and one more and one less.
signed_exact_example :
    (signed_add 16 (pos 0x7fff) (pos 1) ≡ ok none)
    × (signed_minus 16 (pos 0x7fff) (pos 1) ≡ ok (some (pos 0x7ffe)))
signed_exact_example = signed_exact 16 (pos 0x7fff) (pos 1) (omega arith) refl refl

-- The largest int and one more.
int_overflow : signed_add 32 (pos 0x7fff_ffff) (pos 1) ≡ crash
unfolding signed_add
int_overflow = refl
