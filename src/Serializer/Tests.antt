-- ===== src/Serializer/Tests.antt =====
-- Runs of the serializer, and its theorems at concrete inputs.
use sc4051_distributed_banki.Base.{◌≡◌, refl, [], ◌∷◌, ◌++◌, arith, if◌then◌else◌, ltb, length}
use sc4051_distributed_banki.Base.Outcome.{
  ok, fail, ◌>>=◌, deserialize_header_too_short, deserialize_payload_overflow,
}
use sc4051_distributed_banki.Memory.{Bytes, at, memcpy}
use sc4051_distributed_banki.Memory.Words.{append_u32, append_u16, read_u32, read_u16}
use sc4051_distributed_banki.Memory.Hosts.{x86, network_order_host}
use sc4051_distributed_banki.SafeMath.{safe_add}
use sc4051_distributed_banki.Protocol.{Message, IsMessage, request_type}
use sc4051_distributed_banki.Serializer.{serialize, deserialize, validate_header, validate_payload}
use sc4051_distributed_banki.Serializer.Layout.{wire, serialize-wire}
use sc4051_distributed_banki.Serializer.Accepts.{spelled, content_end, deserialize_cases}
use sc4051_distributed_banki.Serializer.RoundTrip.{deserialize-serialize}

abbrev ping : Message
ping = record {
  type = request_type;
  flag = 2;
  id = record { request_id = 0x01020304; ipv4_address = 0x7f000001; port = 2222 };
  payload = record { status_code = 0; content = 6 ∷ 7 ∷ [] };
}

abbrev ping_bytes : Bytes
ping_bytes =
    0 ∷ 2 ∷ 1 ∷ 2 ∷ 3 ∷ 4 ∷ 0x7f ∷ 0 ∷ 0 ∷ 1 ∷ 8 ∷ 0xae ∷ 0 ∷ 0 ∷ 0 ∷ 0 ∷ 0 ∷ 2 ∷ 6 ∷ 7 ∷ []

ping-IsMessage : IsMessage ping
ping-IsMessage = omega arith

serialize_ping : serialize x86 ping ≡ ok ping_bytes
unfolding serialize append_u32 append_u16
serialize_ping = refl

serialize_ping_elsewhere : serialize network_order_host ping ≡ ok ping_bytes
unfolding serialize append_u32 append_u16
serialize_ping_elsewhere = refl

deserialize_ping : deserialize x86 ping_bytes ≡ ok ping
unfolding deserialize read_u32 read_u16 at memcpy validate_header validate_payload safe_add
deserialize_ping = refl

deserialize_short : deserialize x86 (0 ∷ 2 ∷ []) ≡ fail deserialize_header_too_short
unfolding deserialize validate_header
deserialize_short = refl

serialize-wire_example : serialize x86 ping ≡ ok (wire ping)
serialize-wire_example = serialize-wire x86 ping ping-IsMessage

deserialize_cases_example : deserialize x86 ping_bytes ≡ (
    if ltb (length ping_bytes) 18
    then fail deserialize_header_too_short
    else if ltb (length ping_bytes) (content_end ping_bytes)
    then fail deserialize_payload_overflow
    else ok (spelled ping_bytes))
deserialize_cases_example = deserialize_cases x86 ping_bytes (omega arith)

deserialize-serialize_example :
    (serialize x86 ping >>= λ bs. deserialize network_order_host (bs ++ 9 ∷ [])) ≡ ok ping
deserialize-serialize_example =
    deserialize-serialize x86 network_order_host ping (9 ∷ []) ping-IsMessage (omega arith)
