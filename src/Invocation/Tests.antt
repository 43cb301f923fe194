-- ===== src/Invocation/Tests.antt =====
-- The command line's theorem at a concrete one.
use sc4051_distributed_banki.Base.{◌≡◌, refl, [], ◌∷◌}
use sc4051_distributed_banki.Base.Outcome.{ok, fail, invalid_invocation_flag}
use sc4051_distributed_banki.Base.Text.{codes}
use sc4051_distributed_banki.Invocation.{get_invocation_flag}
use sc4051_distributed_banki.Invocation.Flags.{get_invocation_flag_first}

get_invocation_flag_first_example :
    (get_invocation_flag (codes "-l" ∷ codes "10.0.0.1" ∷ codes "-m" ∷ codes "-l" ∷ []) ≡ ok 2)
    × (get_invocation_flag (codes "-l" ∷ codes "10.0.0.1" ∷ []) ≡ fail invalid_invocation_flag)
get_invocation_flag_first_example =
    get_invocation_flag_first (codes "-l") (codes "-m") (codes "10.0.0.1" ∷ []) (codes "-l" ∷ []) 2
      (refl, tt) refl
