-- ===== src/Invocation/Flags.antt =====
-- Which argument decides.
use sc4051_distributed_banki.Base.{ℕ, ◌≡◌, refl, none, some, List, [], ◌∷◌, ◌++◌, All}
use sc4051_distributed_banki.Base.Outcome.{ok, fail, invalid_invocation_flag}
use sc4051_distributed_banki.Memory.{Bytes}
use sc4051_distributed_banki.Invocation.{string_to_invocation_flag, first_flag, get_invocation_flag}

abbrev pub IsOther : Bytes → Type 0
IsOther arg = string_to_invocation_flag arg ≡ none

first_flag-append :
    (others args : List Bytes) → All IsOther others → first_flag (others ++ args) ≡ first_flag args
unfolding first_flag
first_flag-append [] args h = refl
first_flag-append (arg ∷ others) args h = rw h.0 (first_flag-append others args h.1)

-- Behind the program's name the first argument that is a flag decides, whatever stands around it; the
-- name itself is no flag, and a command line without a flag is refused.
pub get_invocation_flag_first :
    (program arg : Bytes) (others args : List Bytes) (flag : ℕ)
    → All IsOther others
    → string_to_invocation_flag arg ≡ some flag
    → (get_invocation_flag (program ∷ (others ++ arg ∷ args)) ≡ ok flag)
      × (get_invocation_flag (program ∷ (others ++ [])) ≡ fail invalid_invocation_flag)
unfolding get_invocation_flag first_flag
get_invocation_flag_first program arg others args flag h known =
    rw (first_flag-append others (arg ∷ args) h, first_flag-append others [] h, known) (refl, refl)
