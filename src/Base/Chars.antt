-- ===== src/Base/Chars.antt =====
-- <cctype> in the "C" locale, and how the number readers of the C++ library take a number apart.
pub mod Digits
use Prim.Native.Nat.{ℕ, ◌+◌, ◌-◌, ◌*◌}
use mathlib.Core.Bool.{Bool, true, false, ◌&&◌, ◌||◌}
use mathlib.Core.Option.{Option, none, some}
use mathlib.Core.List.{List, [], ◌∷◌}
use sc4051_distributed_banki.Base.Tests.{leb, ◌==◌, if◌then◌else◌}

abbrev pub is_space : ℕ → Bool
is_space c = c == 32 || (leb 9 c && leb c 13)

abbrev pub is_upper : ℕ → Bool
is_upper c = leb 65 c && leb c 90

abbrev pub is_lower : ℕ → Bool
is_lower c = leb 97 c && leb c 122

abbrev pub is_digit : ℕ → Bool
is_digit c = leb 48 c && leb c 57

-- `str.erase(str.begin(), find_if(str.begin(), str.end(), not space))`
abbrev pub drop_spaces : List ℕ → List ℕ
drop_spaces [] = []
drop_spaces (c ∷ s) = let rest = drop_spaces s in if is_space c then rest else c ∷ s

abbrev pub read_sign : List ℕ → Bool × List ℕ
read_sign [] = (false, [])
read_sign (c ∷ s) = if c == 45 then (true, s) else if c == 43 then (false, s) else (false, c ∷ s)

-- The number that the digits at the front spell behind those that were read, if there is any digit.
abbrev pub read_digits : Option ℕ → List ℕ → Option ℕ
read_digits before [] = before
read_digits none (c ∷ s) =
    let first = read_digits (some (c - 48)) s in if is_digit c then first else none
read_digits (some n) (c ∷ s) =
    let more = read_digits (some (10 * n + (c - 48))) s in if is_digit c then more else some n

-- What is behind the digits at the front.
abbrev pub drop_digits : List ℕ → List ℕ
drop_digits [] = []
drop_digits (c ∷ s) = let rest = drop_digits s in if is_digit c then rest else c ∷ s
