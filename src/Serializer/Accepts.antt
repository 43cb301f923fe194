-- ===== src/Serializer/Accepts.antt =====
-- What `deserialize` does with any bytes at all.
use sc4051_distributed_banki.Base.{
  ℕ, ◌+◌, ◌^◌, ◌≤◌, ◌<◌, ◌≡◌, true, false, if◌then◌else◌, ltb, length, take, drop, arith,
  Bool-cases, inl, inr,
}
use sc4051_distributed_banki.Base.Outcome.{
  ok, fail, deserialize_header_too_short, deserialize_payload_overflow,
}
use sc4051_distributed_banki.Memory.{Bytes, AreBytes, Platform}
use sc4051_distributed_banki.Memory.Reads.{
  field, field-lt, at-field, memcpy_in, slice-AreBytes, length-slice,
}
use sc4051_distributed_banki.Memory.Words.{read_u32_in, read_u16_in}
use sc4051_distributed_banki.SafeMath.Bounds.{safe_add64}
use sc4051_distributed_banki.Protocol.{Message, IsMessage}
use sc4051_distributed_banki.Serializer.{deserialize, validate_header, validate_payload}

-- The message that a buffer spells: every number in network order, at its place in the format.
abbrev pub spelled : Bytes → Message
spelled bs = record {
  type = field bs 0 1;
  flag = field bs 1 1;
  id = record { request_id = field bs 2 4; ipv4_address = field bs 6 4; port = field bs 10 2 };
  payload = record { status_code = field bs 12 2; content = take (field bs 14 4) (drop 18 bs) };
}

abbrev pub content_end : Bytes → ℕ
content_end bs = 18 + field bs 14 4

payload_check :
    (total len : ℕ)
    → len < 2 ^ 32
    → validate_payload total 18 len ≡ (if ltb total (18 + len) then false else true)
unfolding validate_payload
payload_check total len h = rw (safe_add64 18 len (omega arith), validate_payload)

-- On any bytes `deserialize` returns, on every platform alike: an error when the header is cut or the
-- declared content passes the end, and the message that the bytes spell otherwise.
pub deserialize_cases :
    (p : Platform) (bs : Bytes)
    → AreBytes bs
    → deserialize p bs ≡ (
        if ltb (length bs) 18
        then fail deserialize_header_too_short
        else if ltb (length bs) (content_end bs)
        then fail deserialize_payload_overflow
        else ok (spelled bs))
unfolding deserialize validate_header
deserialize_cases p bs h = elim (Bool-cases (ltb (length bs) 18)) [
  | inl short ↦ rw short
  | inr long ↦
      let fits : 18 ≤ length bs = ground arith in
      rw
        (
          long,
          at-field bs 0 (omega arith),
          at-field bs 1 (omega arith),
          read_u32_in p bs 2 h (omega arith),
          read_u32_in p bs 6 h (omega arith),
          read_u16_in p bs 10 h (omega arith),
          read_u16_in p bs 12 h (omega arith),
          read_u32_in p bs 14 h (omega arith),
          payload_check (length bs) (field bs 14 4) (field-lt bs 14 4 h (omega arith)),
        )
        (elim (Bool-cases (ltb (length bs) (content_end bs))) [
          | inl cut ↦ rw cut
          | inr whole ↦ rw (whole, memcpy_in bs 18 (field bs 14 4) (ground arith))
        ])
]

-- `deserialize` accepts no other buffers and returns nothing else.
pub deserialize_accepted :
    (p : Platform) (bs : Bytes) (m : Message)
    → AreBytes bs
    → deserialize p bs ≡ ok m
    → (18 ≤ length bs) × (content_end bs ≤ length bs) × (m ≡ spelled bs)
deserialize_accepted p bs m h e = ground (arith, deserialize_cases p bs h)

spelled-IsMessage :
    (bs : Bytes)
    → AreBytes bs
    → 18 ≤ length bs
    → content_end bs ≤ length bs
    → IsMessage (spelled bs)
spelled-IsMessage bs h fits whole = record {
  type_range = field-lt bs 0 1 h (omega arith);
  flag_range = field-lt bs 1 1 h (omega arith);
  request_id_range = field-lt bs 2 4 h (omega arith);
  ipv4_address_range = field-lt bs 6 4 h (omega arith);
  port_range = field-lt bs 10 2 h (omega arith);
  status_code_range = field-lt bs 12 2 h (omega arith);
  content_bytes = slice-AreBytes bs 18 (field bs 14 4) h;
  content_size = rw (length-slice bs 18 (field bs 14 4) whole) (field-lt bs 14 4 h (omega arith));
}

-- What `deserialize` accepts lies in the ranges of the message's types.
pub deserialize-IsMessage :
    (p : Platform) (bs : Bytes) (m : Message) → AreBytes bs → deserialize p bs ≡ ok m → IsMessage m
deserialize-IsMessage p bs m h e =
    let (fits, whole, same) = deserialize_accepted p bs m h e in
    rw same (spelled-IsMessage bs h fits whole)
