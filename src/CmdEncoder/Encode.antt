-- ===== src/CmdEncoder/Encode.antt =====
-- `CommandEncoder::encode_message` and what it calls. An encoder that reads an optional with
-- `.value()` throws where it is empty: that is `crash`.
use sc4051_distributed_banki.Base.{
  ℕ, ◌+◌, ◌%◌, ◌^◌, Option, none, some, Bool, true, false, not, ◌||◌, List, [], ◌∷◌, ◌++◌, length,
  if◌then◌else◌,
}
use sc4051_distributed_banki.Base.Outcome.{
  InternalError, Result, ok, fail, crash, unfinished, or_crash, ◌>>=◌, encode_unknown_field,
  encode_empty_command,
}
use sc4051_distributed_banki.Memory.{Bytes, Platform, store}
use sc4051_distributed_banki.Memory.Words.{append_u32, append_u16}
use sc4051_distributed_banki.Memory.Swap.{swap64}
use sc4051_distributed_banki.Protocol.{
  Command, FieldId, field_code, service, account_number, account_owner_name, account_password,
  tx_account_number, tx_account_owner_name, monetary_value, currency, monitor_updates,
  monitor_timeout_seconds,
}

abbrev pub append_uint8 : Bytes → ℕ → Bytes
append_uint8 buffer value = buffer ++ value % 256 ∷ []

abbrev pub append_string : Bytes → Bytes → Bytes
append_string buffer str = buffer ++ str

-- `optional::has_value`
abbrev pub has_value {ℓ} : {A : Type ℓ} → Option A → Bool
has_value none = false
has_value (some a) = true

-- `optional->size()`, read only where there is a value.
abbrev pub size_of : Option Bytes → ℕ
size_of none = 0
size_of (some s) = length s

unfoldable pub get_optimal_buffer_size : Command → ℕ
get_optimal_buffer_size cmd =
    (if has_value cmd.service then 6 else 0)
    + (if has_value cmd.account_number then 9 else 0)
    + (if has_value cmd.monetary_value then 13 else 0)
    + (if has_value cmd.currency then 9 else 0)
    + (if has_value cmd.tx_account_number then 9 else 0)
    + (if has_value cmd.account_owner_name then 5 + size_of cmd.account_owner_name else 0)
    + (if has_value cmd.account_password then 5 + size_of cmd.account_password else 0)
    + (if has_value cmd.tx_account_owner_name then 5 + size_of cmd.tx_account_owner_name else 0)

-- `Command::all_fields`, each field with whether it is set.
abbrev pub all_fields : Command → List (FieldId × Bool)
all_fields cmd =
    (service, has_value cmd.service)
    ∷ (account_number, has_value cmd.account_number)
    ∷ (account_owner_name, has_value cmd.account_owner_name)
    ∷ (account_password, has_value cmd.account_password)
    ∷ (tx_account_number, has_value cmd.tx_account_number)
    ∷ (tx_account_owner_name, has_value cmd.tx_account_owner_name)
    ∷ (monetary_value, has_value cmd.monetary_value)
    ∷ (currency, has_value cmd.currency)
    ∷ (monitor_updates, has_value cmd.monitor_updates)
    ∷ (monitor_timeout_seconds, has_value cmd.monitor_timeout_seconds)
    ∷ []

-- What the visitor of `encode_message` captures by reference.
pub record EncodeState : Type 0 where
  pub buffer : Bytes
  pub error : Option InternalError

-- `Protocol::iterate`
unfoldable pub iterate {ℓ} :
    {S : Type ℓ} → (S → FieldId × Bool → Result S) → S → List (FieldId × Bool) → Result S
iterate f s [] = ok s
iterate f s (x ∷ xs) = f s x >>= λ s'. iterate f s' xs

-- The visitor's `auto res = it->second(buffer, data); if (!res) error = res.error();`
abbrev pub record_result : EncodeState → Result Bytes → Result EncodeState
record_result st (ok buffer) = ok (record st { buffer = buffer })
record_result st (fail e) = ok (record st { error = some e })
record_result st crash = crash
record_result st unfinished = unfinished

-- What follows the iteration in `encode_message`.
abbrev pub finish : EncodeState → Result Bytes
finish st = elim st.error [
  | some e ↦ fail e
  | none ↦ elim st.buffer [ [] ↦ fail encode_empty_command | b ∷ bs ↦ ok (b ∷ bs) ]
]

module _ (p : Platform) where
  abbrev pub append_uint16 : Bytes → ℕ → Bytes
  append_uint16 = append_u16 p

  abbrev pub append_uint32 : Bytes → ℕ → Bytes
  append_uint32 = append_u32 p

  abbrev pub append_double : Bytes → ℕ → Bytes
  append_double buffer value = buffer ++ store p.endian 8 (swap64 value)

  unfoldable pub encode_service : Bytes → Command → Result Bytes
  encode_service buffer cmd = do
    value ← or_crash cmd.service
    let buffer1 = append_uint8 buffer (field_code service)
    let buffer2 = append_uint32 buffer1 1
    ok (append_uint8 buffer2 (value % 256))

  unfoldable pub encode_account_number : Bytes → Command → Result Bytes
  encode_account_number buffer cmd = do
    value ← or_crash cmd.account_number
    let buffer1 = append_uint8 buffer (field_code account_number)
    let buffer2 = append_uint32 buffer1 4
    ok (append_uint32 buffer2 value)

  unfoldable pub encode_account_owner_name : Bytes → Command → Result Bytes
  encode_account_owner_name buffer cmd = do
    value ← or_crash cmd.account_owner_name
    let buffer1 = append_uint8 buffer (field_code account_owner_name)
    let buffer2 = append_uint32 buffer1 (length value % 2 ^ 32)
    ok (append_string buffer2 value)

  unfoldable pub encode_account_password : Bytes → Command → Result Bytes
  encode_account_password buffer cmd = do
    value ← or_crash cmd.account_password
    let buffer1 = append_uint8 buffer (field_code account_password)
    let buffer2 = append_uint32 buffer1 (length value % 2 ^ 32)
    ok (append_string buffer2 value)

  unfoldable pub encode_tx_account_number : Bytes → Command → Result Bytes
  encode_tx_account_number buffer cmd = do
    value ← or_crash cmd.tx_account_number
    let buffer1 = append_uint8 buffer (field_code tx_account_number)
    let buffer2 = append_uint32 buffer1 4
    ok (append_uint32 buffer2 value)

  unfoldable pub encode_tx_account_owner_name : Bytes → Command → Result Bytes
  encode_tx_account_owner_name buffer cmd = do
    value ← or_crash cmd.tx_account_owner_name
    let buffer1 = append_uint8 buffer (field_code tx_account_owner_name)
    let buffer2 = append_uint32 buffer1 (length value % 2 ^ 32)
    ok (append_string buffer2 value)

  unfoldable pub encode_monetary_value : Bytes → Command → Result Bytes
  encode_monetary_value buffer cmd = do
    value ← or_crash cmd.monetary_value
    let buffer1 = append_uint8 buffer (field_code monetary_value)
    let buffer2 = append_uint32 buffer1 8
    ok (append_double buffer2 value)

  unfoldable pub encode_currency : Bytes → Command → Result Bytes
  encode_currency buffer cmd = do
    value ← or_crash cmd.currency
    let buffer1 = append_uint8 buffer (field_code currency)
    let buffer2 = append_uint32 buffer1 1
    ok (append_uint8 buffer2 (value % 256))

  unfoldable pub encode_monitor_updates : Bytes → Command → Result Bytes
  encode_monitor_updates buffer cmd = do
    value ← or_crash cmd.monitor_updates
    let buffer1 = append_uint8 buffer (field_code monitor_updates)
    let buffer2 = append_uint32 buffer1 (length value % 2 ^ 32)
    ok (append_string buffer2 value)

  unfoldable pub encode_monitor_timeout_seconds : Bytes → Command → Result Bytes
  encode_monitor_timeout_seconds buffer cmd = do
    value ← or_crash cmd.monitor_timeout_seconds
    let buffer1 = append_uint8 buffer (field_code monitor_timeout_seconds)
    let buffer2 = append_uint32 buffer1 4
    ok (append_uint32 buffer2 value)

  -- `encodeFuncMap.find`
  abbrev pub encode_func_map : FieldId → Option (Bytes → Command → Result Bytes)
  encode_func_map service = some encode_service
  encode_func_map account_number = some encode_account_number
  encode_func_map account_owner_name = some encode_account_owner_name
  encode_func_map account_password = some encode_account_password
  encode_func_map tx_account_number = some encode_tx_account_number
  encode_func_map tx_account_owner_name = some encode_tx_account_owner_name
  encode_func_map monetary_value = some encode_monetary_value
  encode_func_map currency = some encode_currency
  encode_func_map monitor_updates = some encode_monitor_updates
  encode_func_map monitor_timeout_seconds = some encode_monitor_timeout_seconds

  -- The lambda that `encode_message` iterates with.
  unfoldable pub visit : Command → EncodeState → FieldId × Bool → Result EncodeState
  visit cmd st (id, has) =
      if has_value st.error || not has then ok st else elim (encode_func_map id) [
        | none ↦ ok (record st { error = some encode_unknown_field })
        | some encoder ↦ record_result st (encoder st.buffer cmd)
      ]

  unfoldable pub encode_message : Command → Result Bytes
  unfolding iterate visit
  encode_message cmd = do
    st ← iterate (visit cmd) (record { buffer = []; error = none }) (all_fields cmd)
    finish st
