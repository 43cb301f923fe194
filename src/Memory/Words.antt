-- ===== src/Memory/Words.antt =====
-- Words in network order in a buffer: `htonl` and `insert`, `memcpy` and `ntohl`.
use sc4051_distributed_banki.Base.{
  ℕ, ◌+◌, ◌^◌, ◌≤◌, ◌<◌, ◌≡◌, ◌∙◌, ap, ◌++◌, length, take, drop, arith,
}
use sc4051_distributed_banki.Base.Outcome.{Result, ok, ◌>>=◌}
use sc4051_distributed_banki.Memory.{
  Bytes, AreBytes, Platform, store, load, network_bytes, network_value, memcpy,
}
use sc4051_distributed_banki.Memory.Order.{
  length-network_bytes, network_bytes-AreBytes, network_value-network_bytes,
}
use sc4051_distributed_banki.Memory.Reads.{memcpy_in, memcpy_after, length-slice, slice-AreBytes}

module _ (p : Platform) where
  -- `uint32_t n = htonl(v); data.insert(data.end(), (uint8_t*)&n, (uint8_t*)&n + 4);`
  unfoldable pub append_u32 : Bytes → ℕ → Bytes
  append_u32 buf v = buf ++ store p.endian 4 (p.htonl v)

  unfoldable pub append_u16 : Bytes → ℕ → Bytes
  append_u16 buf v = buf ++ store p.endian 2 (p.htons v)

  -- `uint32_t n; std::memcpy(&n, buf.buf() + offset, 4); n = ntohl(n);`
  unfoldable pub read_u32 : Bytes → ℕ → Result ℕ
  read_u32 buf offset = memcpy buf offset 4 >>= λ n. ok (p.ntohl (load p.endian n))

  unfoldable pub read_u16 : Bytes → ℕ → Result ℕ
  read_u16 buf offset = memcpy buf offset 2 >>= λ n. ok (p.ntohs (load p.endian n))

  pub append_u32-network :
      (buf : Bytes) (v : ℕ) → v < 2 ^ 32 → append_u32 buf v ≡ buf ++ network_bytes 4 v
  unfolding append_u32
  append_u32-network buf v h = ap (λ (t : Bytes). buf ++ t) (p.htonl_order v h)

  pub append_u16-network :
      (buf : Bytes) (v : ℕ) → v < 2 ^ 16 → append_u16 buf v ≡ buf ++ network_bytes 2 v
  unfolding append_u16
  append_u16-network buf v h = ap (λ (t : Bytes). buf ++ t) (p.htons_order v h)

  -- A read inside the buffer is the number that the bytes there spell in network order.
  pub read_u32_in :
      (buf : Bytes) (offset : ℕ)
      → AreBytes buf
      → offset + 4 ≤ length buf
      → read_u32 buf offset ≡ ok (network_value (take 4 (drop offset buf)))
  unfolding read_u32
  read_u32_in buf offset h fits =
      rw (memcpy_in buf offset 4 fits)
        (ap ok (p.ntohl_order _ (slice-AreBytes buf offset 4 h) (length-slice buf offset 4 fits)))

  pub read_u16_in :
      (buf : Bytes) (offset : ℕ)
      → AreBytes buf
      → offset + 2 ≤ length buf
      → read_u16 buf offset ≡ ok (network_value (take 2 (drop offset buf)))
  unfolding read_u16
  read_u16_in buf offset h fits =
      rw (memcpy_in buf offset 2 fits)
        (ap ok (p.ntohs_order _ (slice-AreBytes buf offset 2 h) (length-slice buf offset 2 fits)))

  -- A word that was written is read back.
  pub read_u32_after :
      (pre : Bytes) (v : ℕ) (post : Bytes) (i : ℕ)
      → v < 2 ^ 32
      → i ≡ length pre
      → read_u32 (pre ++ (network_bytes 4 v ++ post)) i ≡ ok v
  unfolding read_u32
  read_u32_after pre v post i h e =
      rw (memcpy_after pre (network_bytes 4 v) post i 4 e (omega arith)) (
        ap ok (
          p.ntohl_order (network_bytes 4 v) (network_bytes-AreBytes 4 v) (length-network_bytes 4 v)
          ∙ network_value-network_bytes 4 v h))

  pub read_u16_after :
      (pre : Bytes) (v : ℕ) (post : Bytes) (i : ℕ)
      → v < 2 ^ 16
      → i ≡ length pre
      → read_u16 (pre ++ (network_bytes 2 v ++ post)) i ≡ ok v
  unfolding read_u16
  read_u16_after pre v post i h e =
      rw (memcpy_after pre (network_bytes 2 v) post i 2 e (omega arith)) (
        ap ok (
          p.ntohs_order (network_bytes 2 v) (network_bytes-AreBytes 2 v) (length-network_bytes 2 v)
          ∙ network_value-network_bytes 2 v h))
