-- ===== src/Socket/Tests.antt =====
-- The socket's theorem at a concrete address.
use sc4051_distributed_banki.Base.{ℕ, ◌≡◌, refl, [], ◌∷◌, arith}
use sc4051_distributed_banki.Memory.{load, little}
use sc4051_distributed_banki.Memory.Hosts.{x86}
use sc4051_distributed_banki.Memory.Words.{append_u32, append_u16}
use sc4051_distributed_banki.Socket.{returned, done, map_ran, get_local_info}
use sc4051_distributed_banki.Socket.Address.{get_local_info_written}

-- 127.0.0.1:5000 behind the first two bytes of a header.
get_local_info_written_example :
    map_ran
      (λ ((a, b) : ℕ × ℕ). append_u16 x86 (append_u32 x86 (0 ∷ 2 ∷ []) a) b)
      (get_local_info x86 (
        returned (record {
          sin_addr = load little (127 ∷ 0 ∷ 0 ∷ 1 ∷ []);
          sin_port = load little (0x13 ∷ 0x88 ∷ []);
        })))
    ≡ done (0 ∷ 2 ∷ 127 ∷ 0 ∷ 0 ∷ 1 ∷ 0x13 ∷ 0x88 ∷ [])
get_local_info_written_example =
    get_local_info_written x86 (127 ∷ 0 ∷ 0 ∷ 1 ∷ []) (0x13 ∷ 0x88 ∷ []) (omega arith) refl
      (omega arith) refl (0 ∷ 2 ∷ [])
