-- ===== src/CmdEncoder/Setters.antt =====
-- Each decoder, on the content that the encoder of its field writes, sets that field to the value.
use sc4051_distributed_banki.Base.{
  ℕ, ◌^◌, ◌≤◌, ◌<◌, ◌≡◌, ◌∙◌, some, [], ◌∷◌, length, arith, ltb-false,
}
use sc4051_distributed_banki.Base.Outcome.{ok}
use sc4051_distributed_banki.Memory.{
  Bytes, Platform, Endian, little, big, load, memcpy, network_bytes,
}
use sc4051_distributed_banki.Memory.Order.{
  length-network_bytes, network_bytes-AreBytes, network_value-network_bytes,
}
use sc4051_distributed_banki.Memory.Reads.{memcpy_whole}
use sc4051_distributed_banki.Memory.Swap.{double_bytes, length-double_bytes, load_double}
use sc4051_distributed_banki.Protocol.{
  Command, service, account_number, account_owner_name, account_password, tx_account_number,
  tx_account_owner_name, monetary_value, currency, monitor_updates, monitor_timeout_seconds,
}
use sc4051_distributed_banki.CmdEncoder.Decode.{
  decode_service, decode_account_number, decode_account_owner_name, decode_account_password,
  decode_tx_account_number, decode_tx_account_owner_name, decode_monetary_value, decode_currency,
  decode_monitor_updates, decode_monitor_timeout_seconds,
}
use sc4051_distributed_banki.CmdEncoder.Steps.{apply_field}

load_byte : (e : Endian) (x : ℕ) → load e (x ∷ []) ≡ x
load_byte little x = omega arith
load_byte big x = omega arith

load_word : (p : Platform) (x : ℕ) → x < 2 ^ 32 → p.ntohl (load p.endian (network_bytes 4 x)) ≡ x
load_word p x h =
    p.ntohl_order (network_bytes 4 x) (network_bytes-AreBytes 4 x) (length-network_bytes 4 x)
    ∙ network_value-network_bytes 4 x h

read_double : (e : Endian) (x : ℕ) → memcpy (double_bytes e x) 0 8 ≡ ok (double_bytes e x)
read_double e x = rw (← length-double_bytes e x) (memcpy_whole (double_bytes e x))

module _ (p : Platform) (dst : Command) where
  pub set_service :
      (x : ℕ) → apply_field p dst service (x ∷ []) ≡ ok (record dst { service = some x })
  unfolding decode_service
  set_service x = rw (memcpy_whole (x ∷ []), load_byte p.endian x)

  pub set_account_number :
      (x : ℕ)
      → x < 2 ^ 32
      → apply_field p dst account_number (network_bytes 4 x)
        ≡ ok (record dst { account_number = some x })
  unfolding decode_account_number
  set_account_number x h = rw (memcpy_whole (network_bytes 4 x), load_word p x h)

  pub set_account_owner_name :
      (x : Bytes)
      → length x ≤ 1024
      → apply_field p dst account_owner_name x ≡ ok (record dst { account_owner_name = some x })
  unfolding decode_account_owner_name
  set_account_owner_name x h = rw (ltb-false 1024 (length x) h, memcpy_whole x)

  pub set_account_password :
      (x : Bytes)
      → length x ≤ 1024
      → apply_field p dst account_password x ≡ ok (record dst { account_password = some x })
  unfolding decode_account_password
  set_account_password x h = rw (ltb-false 1024 (length x) h, memcpy_whole x)

  pub set_tx_account_number :
      (x : ℕ)
      → x < 2 ^ 32
      → apply_field p dst tx_account_number (network_bytes 4 x)
        ≡ ok (record dst { tx_account_number = some x })
  unfolding decode_tx_account_number
  set_tx_account_number x h = rw (memcpy_whole (network_bytes 4 x), load_word p x h)

  pub set_tx_account_owner_name :
      (x : Bytes)
      → length x ≤ 1024
      → apply_field p dst tx_account_owner_name x
        ≡ ok (record dst { tx_account_owner_name = some x })
  unfolding decode_tx_account_owner_name
  set_tx_account_owner_name x h = rw (ltb-false 1024 (length x) h, memcpy_whole x)

  pub set_monetary_value :
      (x : ℕ)
      → x < 2 ^ 64
      → apply_field p dst monetary_value (double_bytes p.endian x)
        ≡ ok (record dst { monetary_value = some x })
  unfolding decode_monetary_value
  set_monetary_value x h =
      rw (length-double_bytes p.endian x, read_double p.endian x, load_double p.endian x h)

  pub set_currency :
      (x : ℕ) → apply_field p dst currency (x ∷ []) ≡ ok (record dst { currency = some x })
  unfolding decode_currency
  set_currency x = rw (memcpy_whole (x ∷ []), load_byte p.endian x)

  pub set_monitor_updates :
      (x : Bytes)
      → length x ≤ 1024
      → apply_field p dst monitor_updates x ≡ ok (record dst { monitor_updates = some x })
  unfolding decode_monitor_updates
  set_monitor_updates x h = rw (ltb-false 1024 (length x) h, memcpy_whole x)

  pub set_monitor_timeout_seconds :
      (x : ℕ)
      → x < 2 ^ 32
      → apply_field p dst monitor_timeout_seconds (network_bytes 4 x)
        ≡ ok (record dst { monitor_timeout_seconds = some x })
  unfolding decode_monitor_timeout_seconds
  set_monitor_timeout_seconds x h = rw (memcpy_whole (network_bytes 4 x), load_word p x h)
