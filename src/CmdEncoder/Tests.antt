-- ===== src/CmdEncoder/Tests.antt =====
-- Runs of the command's codec, and its theorems at concrete inputs.
use sc4051_distributed_banki.Base.{◌+◌, length, ◌≡◌, refl, [], ◌∷◌, ◌++◌, arith, some}
use sc4051_distributed_banki.Base.Outcome.{
  ok, fail, Returns, encode_empty_command, decode_unknown_field,
}
use sc4051_distributed_banki.Base.Text.{codes}
use sc4051_distributed_banki.Memory.{Bytes, at, memcpy, little}
use sc4051_distributed_banki.Memory.Words.{append_u32, read_u32}
use sc4051_distributed_banki.Memory.Hosts.{x86}
use sc4051_distributed_banki.Memory.Swap.{swap64}
use sc4051_distributed_banki.SafeMath.{safe_add}
use sc4051_distributed_banki.Protocol.{Command, empty_command, service, currency}
use sc4051_distributed_banki.CmdEncoder.Encode.{
  encode_message, get_optimal_buffer_size, encode_service, encode_account_number,
  encode_account_owner_name, encode_monetary_value,
}
use sc4051_distributed_banki.CmdEncoder.Decode.{
  decode_message, decode_step, is_within_data_size, decode_service, decode_account_number,
  decode_account_owner_name, decode_monetary_value,
}
use sc4051_distributed_banki.CmdEncoder.Layout.{non_empty, encode_message-wire}
use sc4051_distributed_banki.CmdEncoder.Wire.{wire, IsCommand}
use sc4051_distributed_banki.CmdEncoder.Sequence.{
  concat_fields, apply_fields, decode_message-fields,
}
use sc4051_distributed_banki.CmdEncoder.RoundTrip.{decode_message-encode_message}
use sc4051_distributed_banki.CmdEncoder.Reserve.{get_optimal_buffer_size-wire}
use sc4051_distributed_banki.CmdEncoder.Safety.{decode_message-Returns}

-- DEPOSIT 100.0 to account 1000 of Ann, currency not given.
abbrev deposit : Command
deposit = record empty_command {
  service = some 3;
  account_number = some 1000;
  account_owner_name = some (codes "Ann");
  monetary_value = some 0x4059000000000000;
}

abbrev deposit_bytes : Bytes
deposit_bytes =
    1 ∷ 0 ∷ 0 ∷ 0 ∷ 1 ∷ 3 ∷ 2 ∷ 0 ∷ 0 ∷ 0 ∷ 4 ∷ 0 ∷ 0 ∷ 3 ∷ 0xe8 ∷ 3 ∷ 0 ∷ 0 ∷ 0 ∷ 3 ∷ codes "Ann"
    ++ 7 ∷ 0 ∷ 0 ∷ 0 ∷ 8 ∷ 0x40 ∷ 0x59 ∷ 0 ∷ 0 ∷ 0 ∷ 0 ∷ 0 ∷ 0 ∷ []

deposit-IsCommand : IsCommand deposit
deposit-IsCommand = omega arith

encode_deposit : encode_message x86 deposit ≡ ok deposit_bytes
unfolding encode_message encode_service encode_account_number encode_account_owner_name
    encode_monetary_value append_u32 swap64
encode_deposit = refl

decode_deposit : decode_message x86 deposit_bytes ≡ ok deposit
unfolding decode_message decode_step decode_service decode_account_number decode_account_owner_name
    decode_monetary_value is_within_data_size safe_add at memcpy read_u32 swap64
decode_deposit = refl

encode_empty : encode_message x86 empty_command ≡ fail encode_empty_command
unfolding encode_message
encode_empty = refl

decode_unknown : decode_message x86 (11 ∷ 0 ∷ 0 ∷ 0 ∷ 0 ∷ []) ≡ fail decode_unknown_field
unfolding decode_message decode_step safe_add at
decode_unknown = refl

-- Two currencies and a service; the second currency stays.
abbrev repeated : Bytes
repeated = concat_fields ((currency, 0 ∷ []) ∷ (service, 6 ∷ []) ∷ (currency, 2 ∷ []) ∷ [])

encode_message-wire_example : encode_message x86 deposit ≡ non_empty (wire little deposit)
encode_message-wire_example = encode_message-wire x86 deposit deposit-IsCommand

decode_message-fields_example :
    decode_message x86 (repeated ++ 7 ∷ [])
    ≡ apply_fields x86 empty_command
        ((currency, 0 ∷ []) ∷ (service, 6 ∷ []) ∷ (currency, 2 ∷ []) ∷ [])
decode_message-fields_example =
    decode_message-fields x86 ((currency, 0 ∷ []) ∷ (service, 6 ∷ []) ∷ (currency, 2 ∷ []) ∷ [])
      (7 ∷ []) (omega arith) (omega arith) (omega arith) (omega arith)

decode_message-encode_message_example : decode_message x86 (deposit_bytes ++ 9 ∷ []) ≡ ok deposit
decode_message-encode_message_example =
    decode_message-encode_message x86 x86 deposit deposit_bytes (9 ∷ []) refl deposit-IsCommand
      (omega arith) encode_deposit

decode_message-Returns_example : Returns (decode_message x86 (7 ∷ 255 ∷ 255 ∷ 255 ∷ 255 ∷ 1 ∷ []))
decode_message-Returns_example =
    decode_message-Returns x86 (7 ∷ 255 ∷ 255 ∷ 255 ∷ 255 ∷ 1 ∷ []) (omega arith) (omega arith)

get_optimal_buffer_size-wire_example :
    get_optimal_buffer_size deposit + 0 + 0 ≡ length (wire little deposit) + 0
get_optimal_buffer_size-wire_example = get_optimal_buffer_size-wire little deposit
