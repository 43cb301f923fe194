-- ===== src/CmdEncoder/Visits.antt =====
-- What one step of the iteration in `CommandEncoder::encode_message` writes, for each field.
use sc4051_distributed_banki.Base.{
  ℕ, ◌%◌, ◌^◌, ◌≤◌, ◌<◌, ◌≡◌, ap, ◌∙◌, none, some, Bool, [], ◌∷◌, ◌++◌, length, arith, append_assoc,
  append-nil, Option-cases, inl, inr,
}
use sc4051_distributed_banki.Base.Outcome.{ok}
use sc4051_distributed_banki.Memory.{Bytes, Platform, store, network_bytes}
use sc4051_distributed_banki.Memory.Words.{append_u32, append_u32-network}
use sc4051_distributed_banki.Memory.Swap.{swap64, double_bytes, double_store, length-double_bytes}
use sc4051_distributed_banki.Protocol.{
  Command, FieldId, field_code, service, account_number, account_owner_name, account_password,
  tx_account_number, tx_account_owner_name, monetary_value, currency, monitor_updates,
  monitor_timeout_seconds,
}
use sc4051_distributed_banki.CmdEncoder.Encode.{
  has_value, EncodeState, visit, encode_service, encode_account_number, encode_account_owner_name,
  encode_account_password, encode_tx_account_number, encode_tx_account_owner_name,
  encode_monetary_value, encode_currency, encode_monitor_updates, encode_monitor_timeout_seconds,
}
use native.Mathlib.Nat.{mod-eq_of_lt}
use sc4051_distributed_banki.CmdEncoder.Wire.{
  tlv, one_byte, four_bytes, content, field_bytes, Within, Fits, IsCommand,
}

abbrev pub has_field : Command → FieldId → Bool
has_field cmd service = has_value cmd.service
has_field cmd account_number = has_value cmd.account_number
has_field cmd account_owner_name = has_value cmd.account_owner_name
has_field cmd account_password = has_value cmd.account_password
has_field cmd tx_account_number = has_value cmd.tx_account_number
has_field cmd tx_account_owner_name = has_value cmd.tx_account_owner_name
has_field cmd monetary_value = has_value cmd.monetary_value
has_field cmd currency = has_value cmd.currency
has_field cmd monitor_updates = has_value cmd.monitor_updates
has_field cmd monitor_timeout_seconds = has_value cmd.monitor_timeout_seconds

abbrev pub clean : Bytes → EncodeState
clean buffer = record { buffer = buffer; error = none }

code-lt : (id : FieldId) → field_code id < 256
code-lt service = omega arith
code-lt _ = omega arith

module _ (p : Platform) (buffer : Bytes) where
  -- The tag and the length that every encoder writes, with the content behind them.
  tlv-append :
      (id : FieldId) (c : Bytes)
      → length c < 2 ^ 32
      → append_u32 p (buffer ++ field_code id % 256 ∷ []) (length c) ++ c ≡ buffer ++ tlv id c
  tlv-append id c h = rw (
    mod-eq_of_lt (code-lt id),
    append_u32-network p (buffer ++ field_code id ∷ []) (length c) h,
    append_assoc (buffer ++ field_code id ∷ []) (network_bytes 4 (length c)) c,
    append_assoc buffer (field_code id ∷ []) (network_bytes 4 (length c) ++ c),
  )

  byte_field :
      (id : FieldId) (x : ℕ)
      → x < 256
      → append_u32 p (buffer ++ field_code id % 256 ∷ []) 1 ++ x % 256 % 256 ∷ []
        ≡ buffer ++ tlv id (one_byte x)
  byte_field id x h = rw (mod-eq_of_lt h, mod-eq_of_lt h) (tlv-append id (one_byte x) (omega arith))

  word_field :
      (id : FieldId) (x : ℕ)
      → x < 2 ^ 32
      → append_u32 p (append_u32 p (buffer ++ field_code id % 256 ∷ []) 4) x
        ≡ buffer ++ tlv id (four_bytes x)
  word_field id x h =
      append_u32-network p (append_u32 p (buffer ++ field_code id % 256 ∷ []) 4) x h
      ∙ tlv-append id (four_bytes x) (omega arith)

  text_field :
      (id : FieldId) (x : Bytes)
      → length x ≤ 1024
      → append_u32 p (buffer ++ field_code id % 256 ∷ []) (length x % 2 ^ 32) ++ x
        ≡ buffer ++ tlv id x
  text_field id x h = rw (mod-eq_of_lt fits) (tlv-append id x fits)
    where
      fits : length x < 2 ^ 32
      fits = omega arith

  double_field :
      (id : FieldId) (x : ℕ)
      → append_u32 p (buffer ++ field_code id % 256 ∷ []) 8 ++ store p.endian 8 (swap64 x)
        ≡ buffer ++ tlv id (double_bytes p.endian x)
  double_field id x =
      rw (double_store p.endian x, ← length-double_bytes p.endian x)
        (tlv-append id (double_bytes p.endian x) (omega (arith, length-double_bytes p.endian x)))

module _ (p : Platform) (cmd : Command) (v : IsCommand cmd) (buffer : Bytes) where
  visit_service :
      visit p cmd (clean buffer) (service, has_value cmd.service)
      ≡ ok (clean (buffer ++ field_bytes service (content p.endian cmd service)))
  unfolding visit encode_service
  visit_service = elim (Option-cases cmd.service) [
    | inl e ↦ rw (e, append-nil)
    | inr (x, e) ↦
        let r : Within 256 (some x) = rw e at v.service_range in
        rw e (ap (λ (t : Bytes). ok (clean t)) (byte_field p buffer service x r))
  ]

  visit_account_number :
      visit p cmd (clean buffer) (account_number, has_value cmd.account_number)
      ≡ ok (clean (buffer ++ field_bytes account_number (content p.endian cmd account_number)))
  unfolding visit encode_account_number
  visit_account_number = elim (Option-cases cmd.account_number) [
    | inl e ↦ rw (e, append-nil)
    | inr (x, e) ↦
        let r : Within (2 ^ 32) (some x) = rw e at v.account_number_range in
        rw e (ap (λ (t : Bytes). ok (clean t)) (word_field p buffer account_number x r))
  ]

  visit_account_owner_name :
      visit p cmd (clean buffer) (account_owner_name, has_value cmd.account_owner_name)
      ≡ ok (
          clean
            (buffer ++ field_bytes account_owner_name (content p.endian cmd account_owner_name)))
  unfolding visit encode_account_owner_name
  visit_account_owner_name = elim (Option-cases cmd.account_owner_name) [
    | inl e ↦ rw (e, append-nil)
    | inr (x, e) ↦
        let r : Fits (some x) = rw e at v.account_owner_name_range in
        rw e (ap (λ (t : Bytes). ok (clean t)) (text_field p buffer account_owner_name x r.1))
  ]

  visit_account_password :
      visit p cmd (clean buffer) (account_password, has_value cmd.account_password)
      ≡ ok (clean (buffer ++ field_bytes account_password (content p.endian cmd account_password)))
  unfolding visit encode_account_password
  visit_account_password = elim (Option-cases cmd.account_password) [
    | inl e ↦ rw (e, append-nil)
    | inr (x, e) ↦
        let r : Fits (some x) = rw e at v.account_password_range in
        rw e (ap (λ (t : Bytes). ok (clean t)) (text_field p buffer account_password x r.1))
  ]

  visit_tx_account_number :
      visit p cmd (clean buffer) (tx_account_number, has_value cmd.tx_account_number)
      ≡ ok
          (clean (buffer ++ field_bytes tx_account_number (content p.endian cmd tx_account_number)))
  unfolding visit encode_tx_account_number
  visit_tx_account_number = elim (Option-cases cmd.tx_account_number) [
    | inl e ↦ rw (e, append-nil)
    | inr (x, e) ↦
        let r : Within (2 ^ 32) (some x) = rw e at v.tx_account_number_range in
        rw e (ap (λ (t : Bytes). ok (clean t)) (word_field p buffer tx_account_number x r))
  ]

  visit_tx_account_owner_name :
      visit p cmd (clean buffer) (tx_account_owner_name, has_value cmd.tx_account_owner_name)
      ≡ ok (
          clean (
            buffer
            ++ field_bytes tx_account_owner_name (content p.endian cmd tx_account_owner_name)))
  unfolding visit encode_tx_account_owner_name
  visit_tx_account_owner_name = elim (Option-cases cmd.tx_account_owner_name) [
    | inl e ↦ rw (e, append-nil)
    | inr (x, e) ↦
        let r : Fits (some x) = rw e at v.tx_account_owner_name_range in
        rw e (ap (λ (t : Bytes). ok (clean t)) (text_field p buffer tx_account_owner_name x r.1))
  ]

  visit_monetary_value :
      visit p cmd (clean buffer) (monetary_value, has_value cmd.monetary_value)
      ≡ ok (clean (buffer ++ field_bytes monetary_value (content p.endian cmd monetary_value)))
  unfolding visit encode_monetary_value
  visit_monetary_value = elim (Option-cases cmd.monetary_value) [
    | inl e ↦ rw (e, append-nil)
    | inr (x, e) ↦
        let r : Within (2 ^ 64) (some x) = rw e at v.monetary_value_range in
        rw e (ap (λ (t : Bytes). ok (clean t)) (double_field p buffer monetary_value x))
  ]

  visit_currency :
      visit p cmd (clean buffer) (currency, has_value cmd.currency)
      ≡ ok (clean (buffer ++ field_bytes currency (content p.endian cmd currency)))
  unfolding visit encode_currency
  visit_currency = elim (Option-cases cmd.currency) [
    | inl e ↦ rw (e, append-nil)
    | inr (x, e) ↦
        let r : Within 256 (some x) = rw e at v.currency_range in
        rw e (ap (λ (t : Bytes). ok (clean t)) (byte_field p buffer currency x r))
  ]

  visit_monitor_updates :
      visit p cmd (clean buffer) (monitor_updates, has_value cmd.monitor_updates)
      ≡ ok (clean (buffer ++ field_bytes monitor_updates (content p.endian cmd monitor_updates)))
  unfolding visit encode_monitor_updates
  visit_monitor_updates = elim (Option-cases cmd.monitor_updates) [
    | inl e ↦ rw (e, append-nil)
    | inr (x, e) ↦
        let r : Fits (some x) = rw e at v.monitor_updates_range in
        rw e (ap (λ (t : Bytes). ok (clean t)) (text_field p buffer monitor_updates x r.1))
  ]

  visit_monitor_timeout_seconds :
      visit p cmd (clean buffer) (monitor_timeout_seconds, has_value cmd.monitor_timeout_seconds)
      ≡ ok (
          clean (
            buffer
            ++ field_bytes monitor_timeout_seconds (content p.endian cmd monitor_timeout_seconds)))
  unfolding visit encode_monitor_timeout_seconds
  visit_monitor_timeout_seconds = elim (Option-cases cmd.monitor_timeout_seconds) [
    | inl e ↦ rw (e, append-nil)
    | inr (x, e) ↦
        let r : Within (2 ^ 32) (some x) = rw e at v.monitor_timeout_seconds_range in
        rw e (ap (λ (t : Bytes). ok (clean t)) (word_field p buffer monitor_timeout_seconds x r))
  ]

  pub visit_field :
      (id : FieldId)
      → visit p cmd (clean buffer) (id, has_field cmd id)
        ≡ ok (clean (buffer ++ field_bytes id (content p.endian cmd id)))
  visit_field service = visit_service
  visit_field account_number = visit_account_number
  visit_field account_owner_name = visit_account_owner_name
  visit_field account_password = visit_account_password
  visit_field tx_account_number = visit_tx_account_number
  visit_field tx_account_owner_name = visit_tx_account_owner_name
  visit_field monetary_value = visit_monetary_value
  visit_field currency = visit_currency
  visit_field monitor_updates = visit_monitor_updates
  visit_field monitor_timeout_seconds = visit_monitor_timeout_seconds
