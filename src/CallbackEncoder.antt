-- ===== src/CallbackEncoder.antt =====
-- client/src/protocol/callbackEncoder.cpp: the flat message that the server pushes to a monitor.
pub mod Accepts
pub mod RoundTrip
mod Tests
use sc4051_distributed_banki.Base.{
  ℕ, ◌+◌, ◌%◌, Bool, true, false, [], ◌∷◌, ◌++◌, length, ltb, if◌then◌else◌,
}
use sc4051_distributed_banki.Base.Outcome.{
  Result, ok, require, ◌>>=◌, ◌>>◌, deserialize_payload_overflow,
}
use sc4051_distributed_banki.Memory.{Bytes, Platform, store, load, at, memcpy}
use sc4051_distributed_banki.Memory.Words.{append_u32, read_u32}
use sc4051_distributed_banki.Memory.Swap.{swap64}
use sc4051_distributed_banki.Protocol.{CallbackMessage}

abbrev pub min_callback_size : ℕ
min_callback_size = 19

unfoldable pub encode_message : Platform → CallbackMessage → Result Bytes
encode_message p cb =
    let data0 : Bytes = [] ++ cb.type % 256 ∷ [] in
    let data1 : Bytes = data0 ++ cb.service % 256 ∷ [] in
    let data2 = append_u32 p data1 cb.account_number in
    let data3 = append_u32 p data2 cb.account_owner_name_len in
    let data4 = data3 ++ cb.account_owner_name in
    let data5 = data4 ++ cb.currency % 256 ∷ [] in
    ok (data5 ++ store p.endian 8 (swap64 cb.monetary_value))

unfoldable pub validate_payload : ℕ → Bool
validate_payload total_size = if ltb total_size min_callback_size then false else true

unfoldable pub decode_message : Platform → Bytes → Result CallbackMessage
decode_message p bytes = do
  require (validate_payload (length bytes)) deserialize_payload_overflow
  type ← at bytes 0
  service ← at bytes 1
  acc_num ← read_u32 p bytes 2
  acc_name_len ← read_u32 p bytes 6
  name ← memcpy bytes 10 acc_name_len
  let offset = 10 + acc_name_len
  currency ← at bytes offset
  val ← memcpy bytes (offset + 1) 8
  ok (record {
    type = type;
    service = service;
    account_number = acc_num;
    account_owner_name_len = acc_name_len;
    account_owner_name = name;
    currency = currency;
    monetary_value = swap64 (load p.endian val);
  })
