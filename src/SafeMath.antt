-- ===== src/SafeMath.antt =====
-- client/include/utils/safemath.h and client/src/utils/safemath.cpp. The program instantiates the two
-- templates at unsigned types only; `w` is the number of bits of their common type.
pub mod Bounds
pub mod Signed
mod Tests
use sc4051_distributed_banki.Base.{
  ℕ, zero, suc, ◌+◌, ◌-◌, ◌/◌, ◌%◌, ◌^◌, Option, none, some, Bool, ◌||◌, ltb, ◌==◌, if◌then◌else◌,
}

-- `safe_add` where the common type is unsigned.
unfoldable pub safe_add : ℕ → ℕ → ℕ → Option ℕ
safe_add w a b =
    let ra = a % 2 ^ w in
    let rb = b % 2 ^ w in
    let result = (ra + rb) % 2 ^ w in if ltb result ra || ltb result rb then none else some result

-- `safe_minus` where the common type is unsigned.
unfoldable pub safe_minus : ℕ → ℕ → ℕ → Option ℕ
safe_minus w a b =
    let ra = a % 2 ^ w in
    let rb = b % 2 ^ w in
    let result = (ra + 2 ^ w - rb) % 2 ^ w in if ltb ra rb then none else some result

-- An `int` that is -1 or an index.
pub data Index : Type 0 where
  minus_one : Index
  index : ℕ → Index

-- `while (x >>= 1) ++index;`, with fuel; `none` means that the fuel ran out.
msb_loop : ℕ → ℕ → ℕ → Option ℕ
msb_loop zero x i = none
msb_loop (suc fuel) x i =
    let rest = msb_loop fuel (x / 2) (i + 1) in if x / 2 == 0 then some i else rest

-- 32 rounds are enough for an `unsigned int`.
unfoldable pub msb_index : ℕ → Option Index
unfolding msb_loop
msb_index x =
    if x == 0
    then some minus_one
    else elim (msb_loop 32 x 0) [ none ↦ none | some i ↦ some (index i) ]
