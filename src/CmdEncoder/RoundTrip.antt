-- ===== src/CmdEncoder/RoundTrip.antt =====
-- What `encode_message` wrote, `decode_message` reads back.
use sc4051_distributed_banki.Base.{
  ℕ, ◌+◌, ◌*◌, ◌^◌, ◌≤◌, ◌<◌, ◌≡◌, refl, sym, ap, ◌∙◌, Option, none, some, List, [], ◌∷◌, ◌++◌,
  length, arith, length-append, All-append, Option-cases, inl, inr,
}
use sc4051_distributed_banki.Base.Outcome.{ok}
use sc4051_distributed_banki.Memory.{Bytes, Platform, Endian}
use sc4051_distributed_banki.Memory.Swap.{double_bytes, length-double_bytes}
use sc4051_distributed_banki.Protocol.{
  Command, FieldId, service, account_number, account_owner_name, account_password,
  tx_account_number, tx_account_owner_name, monetary_value, currency, monitor_updates,
  monitor_timeout_seconds,
}
use sc4051_distributed_banki.CmdEncoder.Encode.{encode_message}
use sc4051_distributed_banki.CmdEncoder.Decode.{decode_message}
use sc4051_distributed_banki.CmdEncoder.Layout.{encode_message-wire, non_empty}
use sc4051_distributed_banki.CmdEncoder.Wire.{
  tlv, content, field_ids, wire_of, wire, Fits, IsCommand, content_by, one_byte, four_bytes, text,
}
use sc4051_distributed_banki.CmdEncoder.Copy.{field_list, present, apply_fields-present}
use sc4051_distributed_banki.CmdEncoder.Sequence.{
  Field, concat_fields, AreShort, decode_message-fields,
}

concat_fields-present :
    (e : Endian) (cmd : Command) (ids : List FieldId)
    → concat_fields (present e cmd ids) ≡ wire_of e cmd ids
concat_fields-present e cmd [] = refl
concat_fields-present e cmd (id ∷ ids) = elim (Option-cases (content e cmd id)) [
  | inl none_set ↦ rw none_set (concat_fields-present e cmd ids)
  | inr (c, is_set) ↦
      rw is_set (ap (λ (t : Bytes). tlv id c ++ t) (concat_fields-present e cmd ids))
]

module _ (id : FieldId) where
  byte_short : (o : Option ℕ) → AreShort (field_list id (content_by one_byte o))
  byte_short none = tt
  byte_short (some x) = (omega arith, tt)

  word_short : (o : Option ℕ) → AreShort (field_list id (content_by four_bytes o))
  word_short none = tt
  word_short (some x) = (omega arith, tt)

  text_short : (o : Option Bytes) → Fits o → AreShort (field_list id (content_by text o))
  text_short none h = tt
  text_short (some x) h = (omega arith, tt)

  double_short :
      (e : Endian) (o : Option ℕ) → AreShort (field_list id (content_by (double_bytes e) o))
  double_short e none = tt
  double_short e (some x) = (omega (arith, length-double_bytes e x), tt)

module _ (e : Endian) (cmd : Command) (v : IsCommand cmd) where
  field_short : (id : FieldId) → AreShort (field_list id (content e cmd id))
  field_short service = byte_short service cmd.service
  field_short account_number = word_short account_number cmd.account_number
  field_short account_owner_name =
      text_short account_owner_name cmd.account_owner_name v.account_owner_name_range
  field_short account_password =
      text_short account_password cmd.account_password v.account_password_range
  field_short tx_account_number = word_short tx_account_number cmd.tx_account_number
  field_short tx_account_owner_name =
      text_short tx_account_owner_name cmd.tx_account_owner_name v.tx_account_owner_name_range
  field_short monetary_value = double_short monetary_value e cmd.monetary_value
  field_short currency = byte_short currency cmd.currency
  field_short monitor_updates =
      text_short monitor_updates cmd.monitor_updates v.monitor_updates_range
  field_short monitor_timeout_seconds =
      word_short monitor_timeout_seconds cmd.monitor_timeout_seconds

  present-AreShort : (ids : List FieldId) → AreShort (present e cmd ids)
  present-AreShort [] = tt
  present-AreShort (id ∷ ids) =
      All-append (λ f. length f.1 < 2 ^ 32) (field_list id (content e cmd id)) (present e cmd ids)
        (field_short id) (present-AreShort ids)

length-concat_fields :
    (fs : List Field) → AreShort fs → length (concat_fields fs) ≤ (2 ^ 32 + 5) * length fs
length-concat_fields [] h = omega arith
length-concat_fields ((id, c) ∷ fs) h =
    omega (arith, h.0, length-append c (concat_fields fs), length-concat_fields fs h.1)

length-present :
    (e : Endian) (cmd : Command) (ids : List FieldId) → length (present e cmd ids) ≤ length ids
length-present e cmd [] = omega arith
length-present e cmd (id ∷ ids) = elim (Option-cases (content e cmd id)) [
  | inl none_set ↦ rw none_set (omega (arith, length-present e cmd ids))
  | inr (c, is_set) ↦ rw is_set (omega (arith, length-present e cmd ids))
]

pub non_empty_ok : (bs bytes : Bytes) → non_empty bs ≡ ok bytes → (bs ≡ bytes) × (0 < length bytes)
non_empty_ok [] bytes h = cc
non_empty_ok (b ∷ bs) bytes h = ground arith

-- What `encode_message` returns for a command whose values fit, with fewer than five bytes behind it,
-- `decode_message` turns back into the command, on every two hosts of one byte order.
pub decode_message-encode_message :
    (sender receiver : Platform) (cmd : Command) (bytes tail : Bytes)
    → sender.endian ≡ receiver.endian
    → IsCommand cmd
    → length tail < 5
    → encode_message sender cmd ≡ ok bytes
    → decode_message receiver (bytes ++ tail) ≡ ok cmd
decode_message-encode_message sender receiver cmd bytes tail same v few sent =
    ap (λ (t : Bytes). decode_message receiver (t ++ tail)) (sym joined)
    ∙ decode_message-fields receiver fields tail short few some_byte
        (omega (arith, length-append (concat_fields fields) tail, size, count))
    ∙ apply_fields-present receiver cmd v
  where
    fields : List Field
    fields = present receiver.endian cmd field_ids

    short : AreShort fields
    short = present-AreShort receiver.endian cmd v field_ids

    written : (wire sender.endian cmd ≡ bytes) × (0 < length bytes)
    written =
        non_empty_ok (wire sender.endian cmd) bytes (sym (encode_message-wire sender cmd v) ∙ sent)

    joined : concat_fields fields ≡ bytes
    joined =
        concat_fields-present receiver.endian cmd field_ids
        ∙ ap (λ (e : Endian). wire e cmd) (sym same)
        ∙ written.0

    some_byte : 0 < length (concat_fields fields ++ tail)
    some_byte = omega (
      arith,
      ap (λ (t : Bytes). length t) joined,
      written.1,
      length-append (concat_fields fields) tail,
    )

    size : length (concat_fields fields) ≤ (2 ^ 32 + 5) * length fields
    size = length-concat_fields fields short

    count : length fields ≤ 10
    count = length-present receiver.endian cmd field_ids
