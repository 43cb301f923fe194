-- ===== src/CmdEncoder/Size.antt =====
-- The wire form of a command consists of bytes, and has 10290 of them at most.
use sc4051_distributed_banki.Base.{
  ℕ, ◌*◌, ◌≤◌, ◌<◌, Option, none, some, List, [], ◌∷◌, length, arith, length-append, All-append,
}
use sc4051_distributed_banki.Memory.{Bytes, IsByte, AreBytes, Endian, network_bytes}
use sc4051_distributed_banki.Memory.Order.{length-network_bytes, network_bytes-AreBytes}
use sc4051_distributed_banki.Memory.Swap.{double_bytes, length-double_bytes, double_bytes-AreBytes}
use sc4051_distributed_banki.Protocol.{
  Command, FieldId, field_code, service, account_number, account_owner_name, account_password,
  tx_account_number, tx_account_owner_name, monetary_value, currency, monitor_updates,
  monitor_timeout_seconds,
}
use sc4051_distributed_banki.CmdEncoder.Wire.{
  content, content_by, one_byte, four_bytes, text, field_bytes, field_ids, wire_of, wire, Within,
  Fits, IsCommand,
}

-- Bytes, and no more than `bound`.
abbrev AtMost : ℕ → Bytes → Type 0
AtMost bound bs = AreBytes bs × (length bs ≤ bound)

abbrev WhenSet : Option Bytes → Type 0
WhenSet none = Unit
WhenSet (some c) = AtMost 1024 c

byte_content : (o : Option ℕ) → Within 256 o → WhenSet (content_by one_byte o)
byte_content none h = tt
byte_content (some x) h = ((h, tt), omega arith)

word_content : (o : Option ℕ) → WhenSet (content_by four_bytes o)
word_content none = tt
word_content (some x) = (network_bytes-AreBytes 4 x, omega (arith, length-network_bytes 4 x))

text_content : (o : Option Bytes) → Fits o → WhenSet (content_by text o)
text_content none h = tt
text_content (some x) h = h

double_content : (e : Endian) (o : Option ℕ) → WhenSet (content_by (double_bytes e) o)
double_content e none = tt
double_content e (some x) = (double_bytes-AreBytes e x, omega (arith, length-double_bytes e x))

module _ (e : Endian) (cmd : Command) (v : IsCommand cmd) where
  set_content : (id : FieldId) → WhenSet (content e cmd id)
  set_content service = byte_content cmd.service v.service_range
  set_content account_number = word_content cmd.account_number
  set_content account_owner_name = text_content cmd.account_owner_name v.account_owner_name_range
  set_content account_password = text_content cmd.account_password v.account_password_range
  set_content tx_account_number = word_content cmd.tx_account_number
  set_content tx_account_owner_name =
      text_content cmd.tx_account_owner_name v.tx_account_owner_name_range
  set_content monetary_value = double_content e cmd.monetary_value
  set_content currency = byte_content cmd.currency v.currency_range
  set_content monitor_updates = text_content cmd.monitor_updates v.monitor_updates_range
  set_content monitor_timeout_seconds = word_content cmd.monitor_timeout_seconds

  field_size : (id : FieldId) (o : Option Bytes) → WhenSet o → AtMost 1029 (field_bytes id o)
  field_size id none h = (tt, omega arith)
  field_size id (some c) (octets, short) = (
    (
      code_byte id,
      All-append IsByte (network_bytes 4 (length c)) c (network_bytes-AreBytes 4 (length c)) octets,
    ),
    omega (arith, short),
  )
    where
      code_byte : (i : FieldId) → field_code i < 256
      code_byte service = omega arith
      code_byte account_number = omega arith
      code_byte account_owner_name = omega arith
      code_byte account_password = omega arith
      code_byte tx_account_number = omega arith
      code_byte tx_account_owner_name = omega arith
      code_byte monetary_value = omega arith
      code_byte currency = omega arith
      code_byte monitor_updates = omega arith
      code_byte monitor_timeout_seconds = omega arith

  wire_of_size : (ids : List FieldId) → AtMost (1029 * length ids) (wire_of e cmd ids)
  wire_of_size [] = (tt, omega arith)
  wire_of_size (id ∷ ids) =
      let (octets, short) = field_size id (content e cmd id) (set_content id) in
      let (more, room) = wire_of_size ids in
      (
        All-append IsByte (field_bytes id (content e cmd id)) (wire_of e cmd ids) octets more,
        omega (
          arith,
          short,
          room,
          length-append (field_bytes id (content e cmd id)) (wire_of e cmd ids),
        ),
      )

  pub wire_size : AreBytes (wire e cmd) × (length (wire e cmd) ≤ 10290)
  wire_size = wire_of_size field_ids
