-- ===== src/CallbackEncoder/Tests.antt =====
-- Runs of the callback's codec, and its theorems at concrete inputs.
use sc4051_distributed_banki.Base.{◌≡◌, refl, [], ◌∷◌, ◌++◌, arith, if◌then◌else◌, ltb, length}
use sc4051_distributed_banki.Base.Outcome.{ok, fail, crash, ◌>>=◌, deserialize_payload_overflow}
use sc4051_distributed_banki.Base.Text.{codes}
use sc4051_distributed_banki.Memory.{Bytes, at, memcpy, little}
use sc4051_distributed_banki.Memory.Words.{append_u32, read_u32}
use sc4051_distributed_banki.Memory.Hosts.{x86}
use sc4051_distributed_banki.Memory.Swap.{swap64}
use sc4051_distributed_banki.Protocol.{CallbackMessage, callback_type}
use sc4051_distributed_banki.CallbackEncoder.{encode_message, decode_message, validate_payload}
use sc4051_distributed_banki.CallbackEncoder.Accepts.{spelled, needed, decode_message_cases}
use sc4051_distributed_banki.CallbackEncoder.RoundTrip.{
  IsCallback, wire, callback_wire, callback_round_trip,
}

-- 100.0 in IEEE 754 is 0x4059000000000000.
abbrev update : CallbackMessage
update = record {
  type = callback_type;
  service = 3;
  account_number = 1000;
  account_owner_name_len = 3;
  account_owner_name = codes "Ann";
  currency = 1;
  monetary_value = 0x4059000000000000;
}

abbrev update_bytes : Bytes
update_bytes =
    2 ∷ 3 ∷ 0 ∷ 0 ∷ 3 ∷ 0xe8 ∷ 0 ∷ 0 ∷ 0 ∷ 3 ∷ codes "Ann"
    ++ 1 ∷ 0x40 ∷ 0x59 ∷ 0 ∷ 0 ∷ 0 ∷ 0 ∷ 0 ∷ 0 ∷ []

-- A datagram of the least size that declares a name of 255 bytes.
abbrev lying : Bytes
lying = 2 ∷ 3 ∷ 0 ∷ 0 ∷ 3 ∷ 0xe8 ∷ 0 ∷ 0 ∷ 0 ∷ 255 ∷ 0 ∷ 0 ∷ 0 ∷ 0 ∷ 0 ∷ 0 ∷ 0 ∷ 0 ∷ 0 ∷ []

update-IsCallback : IsCallback update
update-IsCallback = record {
  type_range = omega arith;
  service_range = omega arith;
  account_number_range = omega arith;
  name_len = refl;
  name_size = omega arith;
  name_bytes = omega arith;
  currency_range = omega arith;
  monetary_value_range = omega arith;
}

encode_update : encode_message x86 update ≡ ok update_bytes
unfolding encode_message append_u32 swap64
encode_update = refl

decode_update : decode_message x86 update_bytes ≡ ok update
unfolding decode_message read_u32 at memcpy validate_payload swap64
decode_update = refl

decode_lying : decode_message x86 lying ≡ crash
unfolding decode_message read_u32 at memcpy validate_payload
decode_lying = refl

decode_message_cases_example : decode_message x86 lying ≡ (
    if ltb (length lying) 19
    then fail deserialize_payload_overflow
    else if ltb (length lying) (needed lying)
    then crash
    else ok (spelled x86 lying))
decode_message_cases_example = decode_message_cases x86 lying (omega arith)

callback_wire_example : encode_message x86 update ≡ ok (wire little update)
callback_wire_example = callback_wire x86 update update-IsCallback

callback_round_trip_example :
    (encode_message x86 update >>= λ bs. decode_message x86 (bs ++ 9 ∷ [])) ≡ ok update
callback_round_trip_example =
    callback_round_trip x86 x86 update (9 ∷ []) refl update-IsCallback (omega arith)
