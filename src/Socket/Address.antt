-- ===== src/Socket/Address.antt =====
-- The local address on its way from the socket to the header of a request.
use sc4051_distributed_banki.Base.{ℕ, ◌<◌, ◌^◌, ◌≡◌, ◌++◌, length}
use sc4051_distributed_banki.Memory.{Bytes, AreBytes, Platform, load, network_bytes, network_value}
use sc4051_distributed_banki.Memory.Order.{network_bytes-network_value, network_value-lt}
use sc4051_distributed_banki.Memory.Words.{
  append_u32, append_u16, append_u32-network, append_u16-network,
}
use sc4051_distributed_banki.Socket.{SockAddr, returned, done, map_ran, get_local_info}

-- Bytes that spell a word in network order are those of the word that they spell.
spelled_word :
    (n : ℕ) (bs : Bytes) → AreBytes bs → length bs ≡ n → network_bytes n (network_value bs) ≡ bs
spelled_word n bs h l = rw l at (network_bytes-network_value bs h)

spelled-lt : (n : ℕ) (bs : Bytes) → AreBytes bs → length bs ≡ n → network_value bs < 256 ^ n
spelled-lt n bs h l = rw l at (network_value-lt bs h)

module _ (p : Platform) (ip port : Bytes) (hip : AreBytes ip) (lip : length ip ≡ 4)
    (hport : AreBytes port) (lport : length port ≡ 2) where
  -- The `sockaddr_in` with these bytes in memory.
  abbrev pub local : SockAddr
  local = record { sin_addr = load p.endian ip; sin_port = load p.endian port }

  -- On every platform the address and the port that the kernel laid into memory in network order are
  -- what the serializer's words write behind a buffer again, byte by byte.
  pub get_local_info_written :
      (buf : Bytes)
      → map_ran
          (λ ((a, b) : ℕ × ℕ). append_u16 p (append_u32 p buf a) b)
          (get_local_info p (returned local))
        ≡ done ((buf ++ ip) ++ port)
  unfolding get_local_info
  get_local_info_written buf = rw (
    p.ntohl_order ip hip lip,
    p.ntohs_order port hport lport,
    append_u32-network p buf (network_value ip) (spelled-lt 4 ip hip lip),
    append_u16-network p (buf ++ network_bytes 4 (network_value ip)) (network_value port)
        (spelled-lt 2 port hport lport),
    spelled_word 4 ip hip lip,
    spelled_word 2 port hport lport,
  )
