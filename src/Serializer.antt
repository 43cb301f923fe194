-- ===== src/Serializer.antt =====
-- client/src/protocol/msgSerializer.cpp: the 18-byte header and the content of a message.
pub mod Layout
pub mod RoundTrip
pub mod Accepts
mod Tests
use sc4051_distributed_banki.Base.{
  ℕ, ◌+◌, ◌%◌, ◌^◌, Option, none, some, Bool, true, false, [], ◌∷◌, ◌++◌, length, ltb,
  if◌then◌else◌,
}
use sc4051_distributed_banki.Base.Outcome.{
  Result, ok, require, ◌>>=◌, ◌>>◌, deserialize_header_too_short, deserialize_payload_overflow,
}
use sc4051_distributed_banki.Memory.{Bytes, Platform, at, memcpy}
use sc4051_distributed_banki.Memory.Words.{append_u32, append_u16, read_u32, read_u16}
use sc4051_distributed_banki.SafeMath.{safe_add}
use sc4051_distributed_banki.Protocol.{Message}

abbrev pub header_size : ℕ
header_size = 18

unfoldable pub serialize : Platform → Message → Result Bytes
serialize p message =
    let data0 : Bytes = [] ++ message.type % 256 ∷ [] in
    let data1 : Bytes = data0 ++ message.flag % 256 ∷ [] in
    let data2 = append_u32 p data1 message.id.request_id in
    let data3 = append_u32 p data2 message.id.ipv4_address in
    let data4 = append_u16 p data3 message.id.port in
    let data5 = append_u16 p data4 message.payload.status_code in
    let data6 = append_u32 p data5 (length message.payload.content % 2 ^ 32) in
    ok (data6 ++ message.payload.content)

unfoldable pub validate_header : ℕ → Bool
validate_header total_size = if ltb total_size header_size then false else true

unfoldable pub validate_payload : ℕ → ℕ → ℕ → Bool
validate_payload total_size offset content_len = elim (safe_add 64 offset content_len) [
  | none ↦ false
  | some sum ↦ if ltb total_size sum then false else true
]

unfoldable pub deserialize : Platform → Bytes → Result Message
deserialize p bytes = do
  require (validate_header (length bytes)) deserialize_header_too_short
  type ← at bytes 0
  flag ← at bytes 1
  rid ← read_u32 p bytes 2
  ip ← read_u32 p bytes 6
  port ← read_u16 p bytes 10
  sc ← read_u16 p bytes 12
  content_len ← read_u32 p bytes 14
  require (validate_payload (length bytes) 18 content_len) deserialize_payload_overflow
  content ← memcpy bytes 18 content_len
  ok (record {
    type = type;
    flag = flag;
    id = record { request_id = rid; ipv4_address = ip; port = port };
    payload = record { status_code = sc; content = content };
  })
