-- ===== src/CmdEncoder/Wire.antt =====
-- The wire format of a command, described apart from the code.
use sc4051_distributed_banki.Base.{
  ℕ, ◌^◌, ◌≤◌, ◌<◌, Option, none, some, List, [], ◌∷◌, ◌++◌, length,
}
use sc4051_distributed_banki.Memory.{Bytes, AreBytes, Endian, network_bytes}
use sc4051_distributed_banki.Memory.Swap.{double_bytes}
use sc4051_distributed_banki.Protocol.{
  Command, FieldId, field_code, service, account_number, account_owner_name, account_password,
  tx_account_number, tx_account_owner_name, monetary_value, currency, monitor_updates,
  monitor_timeout_seconds,
}

-- [field_id(1b)][field_length(4b)][field_content(Nb)]
abbrev pub tlv : FieldId → Bytes → Bytes
tlv id content = field_code id ∷ (network_bytes 4 (length content) ++ content)

abbrev pub one_byte : ℕ → Bytes
one_byte v = v ∷ []

abbrev pub four_bytes : ℕ → Bytes
four_bytes v = network_bytes 4 v

abbrev pub text : Bytes → Bytes
text s = s

abbrev pub content_by : {A : Type 0} → (A → Bytes) → Option A → Option Bytes
content_by f none = none
content_by f (some v) = some (f v)

-- The content of each field that is set.
abbrev pub content : Endian → Command → FieldId → Option Bytes
content e cmd service = content_by (one_byte) cmd.service
content e cmd account_number = content_by (four_bytes) cmd.account_number
content e cmd account_owner_name = content_by (text) cmd.account_owner_name
content e cmd account_password = content_by (text) cmd.account_password
content e cmd tx_account_number = content_by (four_bytes) cmd.tx_account_number
content e cmd tx_account_owner_name = content_by (text) cmd.tx_account_owner_name
content e cmd monetary_value = content_by (double_bytes e) cmd.monetary_value
content e cmd currency = content_by (one_byte) cmd.currency
content e cmd monitor_updates = content_by (text) cmd.monitor_updates
content e cmd monitor_timeout_seconds = content_by (four_bytes) cmd.monitor_timeout_seconds

abbrev pub field_bytes : FieldId → Option Bytes → Bytes
field_bytes id none = []
field_bytes id (some c) = tlv id c

abbrev pub field_ids : List FieldId
field_ids =
    service ∷ account_number ∷ account_owner_name ∷ account_password ∷ tx_account_number
    ∷ tx_account_owner_name ∷ monetary_value ∷ currency ∷ monitor_updates ∷ monitor_timeout_seconds
    ∷ []

abbrev pub wire_of : Endian → Command → List FieldId → Bytes
wire_of e cmd [] = []
wire_of e cmd (id ∷ ids) = field_bytes id (content e cmd id) ++ wire_of e cmd ids

-- The fields that are set, one after the other in the order of `all_fields`.
abbrev pub wire : Endian → Command → Bytes
wire e cmd = wire_of e cmd field_ids

abbrev pub Within : ℕ → Option ℕ → Type 0
Within bound none = Unit
Within bound (some v) = v < bound

abbrev pub Fits : Option Bytes → Type 0
Fits none = Unit
Fits (some s) = AreBytes s × (length s ≤ 1024)

-- The values lie in the ranges of their C++ types, a currency in the byte that it is sent as, and
-- the texts are no longer than a decoder accepts.
pub record IsCommand (cmd : Command) : Type 0 where
  pub service_range : Within 256 cmd.service
  pub account_number_range : Within (2 ^ 32) cmd.account_number
  pub account_owner_name_range : Fits cmd.account_owner_name
  pub account_password_range : Fits cmd.account_password
  pub tx_account_number_range : Within (2 ^ 32) cmd.tx_account_number
  pub tx_account_owner_name_range : Fits cmd.tx_account_owner_name
  pub monetary_value_range : Within (2 ^ 64) cmd.monetary_value
  pub currency_range : Within 256 cmd.currency
  pub monitor_updates_range : Fits cmd.monitor_updates
  pub monitor_timeout_seconds_range : Within (2 ^ 32) cmd.monitor_timeout_seconds
