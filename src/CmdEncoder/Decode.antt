-- ===== src/CmdEncoder/Decode.antt =====
-- `CommandEncoder::decode_message` and what it calls. `size_t` is taken to have 64 bits.
use sc4051_distributed_banki.Base.{
  ℕ, zero, suc, Option, none, some, Bool, true, false, length, ltb, ◌==◌, not, if◌then◌else◌,
}
use sc4051_distributed_banki.Base.Outcome.{
  Result, ok, fail, unfinished, require, or_fail, ◌>>=◌, ◌>>◌, decode_empty_data,
  decode_unknown_field, decode_field_overflow, decode_offset_overflow, decode_string_too_long,
}
use sc4051_distributed_banki.Memory.{Bytes, Platform, load, at, memcpy}
use sc4051_distributed_banki.Memory.Words.{read_u32}
use sc4051_distributed_banki.Memory.Swap.{swap64}
use sc4051_distributed_banki.SafeMath.{safe_add}
use sc4051_distributed_banki.Protocol.{
  Command, empty_command, FieldId, service, account_number, account_owner_name, account_password,
  tx_account_number, tx_account_owner_name, monetary_value, currency, monitor_updates,
  monitor_timeout_seconds,
}

abbrev pub field_id_size : ℕ
field_id_size = 1

abbrev pub field_length : ℕ
field_length = 4

abbrev pub max_string_length : ℕ
max_string_length = 1024

abbrev pub to_field_id : ℕ → Option FieldId
to_field_id value =
    if value == 1
    then some service
    else if value == 2
    then some account_number
    else if value == 3
    then some account_owner_name
    else if value == 4
    then some account_password
    else if value == 5
    then some tx_account_number
    else if value == 6
    then some tx_account_owner_name
    else if value == 7
    then some monetary_value
    else if value == 8
    then some currency
    else if value == 9
    then some monitor_updates
    else if value == 10
    then some monitor_timeout_seconds
    else none

unfoldable pub is_within_data_size : ℕ → ℕ → Bytes → Bool
is_within_data_size offset len bytes = elim (safe_add 64 offset len) [
  | none ↦ false
  | some s ↦ if ltb (length bytes) s then false else true
]

-- A decoder sets a field of the command from `length` bytes of the buffer at the offset.
abbrev pub DecoderFunc : Type 0
DecoderFunc = Command → ℕ → ℕ → Bytes → Result Command

module _ (p : Platform) where
  unfoldable pub decode_service : DecoderFunc
  decode_service cmd offset len buffer = do
    require (len == 1) decode_field_overflow
    bytes ← memcpy buffer offset len
    ok (record cmd { service = some (load p.endian bytes) })

  unfoldable pub decode_account_number : DecoderFunc
  decode_account_number cmd offset len buffer = do
    require (len == 4) decode_field_overflow
    bytes ← memcpy buffer offset len
    ok (record cmd { account_number = some (p.ntohl (load p.endian bytes)) })

  unfoldable pub decode_account_owner_name : DecoderFunc
  decode_account_owner_name cmd offset len buffer = do
    require (not (ltb max_string_length len)) decode_string_too_long
    bytes ← memcpy buffer offset len
    ok (record cmd { account_owner_name = some bytes })

  unfoldable pub decode_account_password : DecoderFunc
  decode_account_password cmd offset len buffer = do
    require (not (ltb max_string_length len)) decode_string_too_long
    bytes ← memcpy buffer offset len
    ok (record cmd { account_password = some bytes })

  unfoldable pub decode_tx_account_number : DecoderFunc
  decode_tx_account_number cmd offset len buffer = do
    require (len == 4) decode_field_overflow
    bytes ← memcpy buffer offset len
    ok (record cmd { tx_account_number = some (p.ntohl (load p.endian bytes)) })

  unfoldable pub decode_tx_account_owner_name : DecoderFunc
  decode_tx_account_owner_name cmd offset len buffer = do
    require (not (ltb max_string_length len)) decode_string_too_long
    bytes ← memcpy buffer offset len
    ok (record cmd { tx_account_owner_name = some bytes })

  unfoldable pub decode_monetary_value : DecoderFunc
  decode_monetary_value cmd offset len buffer = do
    require (len == 8) decode_field_overflow
    bytes ← memcpy buffer offset len
    ok (record cmd { monetary_value = some (swap64 (load p.endian bytes)) })

  unfoldable pub decode_currency : DecoderFunc
  decode_currency cmd offset len buffer = do
    require (len == 1) decode_field_overflow
    bytes ← memcpy buffer offset len
    ok (record cmd { currency = some (load p.endian bytes) })

  unfoldable pub decode_monitor_updates : DecoderFunc
  decode_monitor_updates cmd offset len buffer = do
    require (not (ltb max_string_length len)) decode_string_too_long
    bytes ← memcpy buffer offset len
    ok (record cmd { monitor_updates = some bytes })

  unfoldable pub decode_monitor_timeout_seconds : DecoderFunc
  decode_monitor_timeout_seconds cmd offset len buffer = do
    require (len == 4) decode_field_overflow
    bytes ← memcpy buffer offset len
    ok (record cmd { monitor_timeout_seconds = some (p.ntohl (load p.endian bytes)) })

  -- `decodeFuncMap.find`
  abbrev pub decode_func_map : FieldId → Option DecoderFunc
  decode_func_map service = some decode_service
  decode_func_map account_number = some decode_account_number
  decode_func_map account_owner_name = some decode_account_owner_name
  decode_func_map account_password = some decode_account_password
  decode_func_map tx_account_number = some decode_tx_account_number
  decode_func_map tx_account_owner_name = some decode_tx_account_owner_name
  decode_func_map monetary_value = some decode_monetary_value
  decode_func_map currency = some decode_currency
  decode_func_map monitor_updates = some decode_monitor_updates
  decode_func_map monitor_timeout_seconds = some decode_monitor_timeout_seconds

  -- One round of the loop: `none` is its `break`.
  unfoldable pub decode_step : Command → ℕ → Bytes → Result (Option (Command × ℕ))
  decode_step cmd offset bytes = do
    sum1 ← or_fail (safe_add 64 offset field_id_size) decode_offset_overflow
    sum2 ← or_fail (safe_add 64 sum1 field_length) decode_offset_overflow
    if ltb (length bytes) sum2 then ok none else do
      field_id ← at bytes offset
      field ← or_fail (to_field_id field_id) decode_unknown_field
      offset1 ← or_fail (safe_add 64 offset field_id_size) decode_offset_overflow
      len ← read_u32 p bytes offset1
      offset2 ← or_fail (safe_add 64 offset1 field_length) decode_offset_overflow
      require (is_within_data_size offset2 len bytes) decode_field_overflow
      decoder ← or_fail (decode_func_map field) decode_unknown_field
      cmd' ← decoder cmd offset2 len bytes
      next_offset ← or_fail (safe_add 64 offset2 len) decode_offset_overflow
      ok (some (cmd', next_offset))

  -- `while (true)`, with fuel.
  unfoldable pub decode_loop : ℕ → Command → ℕ → Bytes → Result Command
  decode_loop zero cmd offset bytes = unfinished
  decode_loop (suc fuel) cmd offset bytes = decode_step cmd offset bytes >>= elim [
    | none ↦ ok cmd
    | some (cmd', next_offset) ↦ decode_loop fuel cmd' next_offset bytes
  ]

  -- A round moves five bytes on at least, so there are no more rounds than bytes.
  unfoldable pub decode_message : Bytes → Result Command
  unfolding decode_loop
  decode_message bytes =
      if length bytes == 0
      then fail decode_empty_data
      else decode_loop (suc (length bytes)) empty_command 0 bytes
