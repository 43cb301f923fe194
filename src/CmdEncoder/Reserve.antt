-- ===== src/CmdEncoder/Reserve.antt =====
-- How far the size that `encode_message` reserves is from what it writes.
use sc4051_distributed_banki.Base.{
  ℕ, ◌+◌, ◌≡◌, refl, Option, none, some, List, [], ◌∷◌, length, length-append, arith, if◌then◌else◌,
}
use sc4051_distributed_banki.Memory.{Bytes, Endian}
use sc4051_distributed_banki.Memory.Swap.{double_bytes, length-double_bytes}
use sc4051_distributed_banki.Protocol.{
  Command, FieldId, service, account_number, account_owner_name, account_password,
  tx_account_number, tx_account_owner_name, monetary_value, currency, monitor_updates,
  monitor_timeout_seconds,
}
use sc4051_distributed_banki.CmdEncoder.Encode.{has_value, size_of, get_optimal_buffer_size}
use sc4051_distributed_banki.CmdEncoder.Wire.{
  content, content_by, one_byte, four_bytes, text, field_bytes, field_ids, wire_of, wire,
}

module _ (id : FieldId) where
  byte_size :
      (o : Option ℕ)
      → length (field_bytes id (content_by one_byte o)) ≡ (if has_value o then 6 else 0)
  byte_size none = refl
  byte_size (some x) = refl

  word_size :
      (o : Option ℕ)
      → length (field_bytes id (content_by four_bytes o)) ≡ (if has_value o then 9 else 0)
  word_size none = refl
  word_size (some x) = refl

  double_size :
      (e : Endian) (o : Option ℕ)
      → length (field_bytes id (content_by (double_bytes e) o)) ≡ (if has_value o then 13 else 0)
  double_size e none = refl
  double_size e (some x) = omega (arith, length-double_bytes e x)

  text_size :
      (o : Option Bytes)
      → length (field_bytes id (content_by text o)) ≡ (if has_value o then 5 + size_of o else 0)
  text_size none = refl
  text_size (some s) = omega arith

-- The lengths of the fields, added up.
abbrev sum_of : Endian → Command → List FieldId → ℕ
sum_of e cmd [] = 0
sum_of e cmd (id ∷ ids) = length (field_bytes id (content e cmd id)) + sum_of e cmd ids

length-wire_of :
    (e : Endian) (cmd : Command) (ids : List FieldId)
    → length (wire_of e cmd ids) ≡ sum_of e cmd ids
length-wire_of e cmd [] = refl
length-wire_of e cmd (id ∷ ids) = omega (
  arith,
  length-append (field_bytes id (content e cmd id)) (wire_of e cmd ids),
  length-wire_of e cmd ids,
)

too_many :
    (o : Option ℕ)
    → (if has_value o then 9 else 0)
      ≡ (if has_value o then 6 else 0) + (if has_value o then 3 else 0)
too_many none = omega arith
too_many (some x) = omega arith

-- The reserved size is that of the fields in the wire format, but three bytes more for a currency, and
-- without the two fields of a monitor.
pub get_optimal_buffer_size-wire :
    (e : Endian) (cmd : Command)
    → get_optimal_buffer_size cmd
        + (if has_value cmd.monitor_updates then 5 + size_of cmd.monitor_updates else 0)
        + (if has_value cmd.monitor_timeout_seconds then 9 else 0)
      ≡ length (wire e cmd) + (if has_value cmd.currency then 3 else 0)
unfolding get_optimal_buffer_size
get_optimal_buffer_size-wire e cmd = omega (
  arith,
  length-wire_of e cmd field_ids,
  byte_size service cmd.service,
  word_size account_number cmd.account_number,
  text_size account_owner_name cmd.account_owner_name,
  text_size account_password cmd.account_password,
  word_size tx_account_number cmd.tx_account_number,
  text_size tx_account_owner_name cmd.tx_account_owner_name,
  double_size monetary_value e cmd.monetary_value,
  byte_size currency cmd.currency,
  text_size monitor_updates cmd.monitor_updates,
  word_size monitor_timeout_seconds cmd.monitor_timeout_seconds,
  too_many cmd.currency,
)
