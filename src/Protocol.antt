-- ===== src/Protocol.antt =====
-- The data of client/include/protocol/protocol.h, message.h and callback.h. A C++ enumeration holds
-- any value of its underlying type, and the decoders cast received bytes to one unchecked: its values
-- are numbers here, and the enumerators are constants. A `double` is its 64 bits, which the code
-- copies and never computes with; a `std::string` is its bytes.
pub mod Service
pub mod Currency
pub mod Status
use sc4051_distributed_banki.Base.{ℕ, ◌^◌, ◌<◌, Option, none, some, length}
use sc4051_distributed_banki.Memory.{Bytes, AreBytes}

-- enum class FieldID : uint8_t, the tags of the fields of a command.
pub data FieldId : Type 0 where
  service account_number account_owner_name account_password : FieldId
  tx_account_number tx_account_owner_name monetary_value currency : FieldId
  monitor_updates monitor_timeout_seconds : FieldId

-- `static_cast<uint8_t>(id)`
abbrev pub field_code : FieldId → ℕ
field_code service = 1
field_code account_number = 2
field_code account_owner_name = 3
field_code account_password = 4
field_code tx_account_number = 5
field_code tx_account_owner_name = 6
field_code monetary_value = 7
field_code currency = 8
field_code monitor_updates = 9
field_code monitor_timeout_seconds = 10

pub record Command : Type 0 where
  pub service : Option ℕ
  pub account_number : Option ℕ
  pub account_owner_name : Option Bytes
  pub account_password : Option Bytes
  pub tx_account_number : Option ℕ
  pub tx_account_owner_name : Option Bytes
  pub monetary_value : Option ℕ
  pub currency : Option ℕ
  pub monitor_updates : Option Bytes
  pub monitor_timeout_seconds : Option ℕ

-- `Protocol::Command cmd{};`
abbrev pub empty_command : Command
empty_command = record {
  service = none;
  account_number = none;
  account_owner_name = none;
  account_password = none;
  tx_account_number = none;
  tx_account_owner_name = none;
  monetary_value = none;
  currency = none;
  monitor_updates = none;
  monitor_timeout_seconds = none;
}

-- enum class MessageType : uint8_t
abbrev pub request_type : ℕ
request_type = 0

abbrev pub reply_type : ℕ
reply_type = 1

abbrev pub callback_type : ℕ
callback_type = 2

pub record MessageId : Type 0 where
  pub request_id : ℕ
  pub ipv4_address : ℕ
  pub port : ℕ

pub record Payload : Type 0 where
  pub status_code : ℕ
  pub content : Bytes

pub record Message : Type 0 where
  pub type : ℕ
  pub flag : ℕ
  pub id : MessageId
  pub payload : Payload

pub record CallbackMessage : Type 0 where
  pub type : ℕ
  pub service : ℕ
  pub account_number : ℕ
  pub account_owner_name_len : ℕ
  pub account_owner_name : Bytes
  pub currency : ℕ
  pub monetary_value : ℕ

-- The values lie in the ranges of their C++ types, and the content's size in a uint32_t.
pub record IsMessage (m : Message) : Type 0 where
  pub type_range : m.type < 256
  pub flag_range : m.flag < 256
  pub request_id_range : m.id.request_id < 2 ^ 32
  pub ipv4_address_range : m.id.ipv4_address < 2 ^ 32
  pub port_range : m.id.port < 2 ^ 16
  pub status_code_range : m.payload.status_code < 2 ^ 16
  pub content_bytes : AreBytes m.payload.content
  pub content_size : length m.payload.content < 2 ^ 32
