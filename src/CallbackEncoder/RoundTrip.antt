-- ===== src/CallbackEncoder/RoundTrip.antt =====
-- The callback's wire format, and its round trip.
use sc4051_distributed_banki.Base.{
  ℕ, ◌+◌, ◌*◌, ◌^◌, ◌<◌, ◌≡◌, sym, ap, ◌∙◌, [], ◌∷◌, ◌++◌, length, take, drop, arith, length-append,
  append_assoc, All-append, take-append, drop_after, take_after, ltb-false,
}
use sc4051_distributed_banki.Base.Outcome.{ok, ◌>>=◌}
use sc4051_distributed_banki.Memory.{
  Bytes, IsByte, AreBytes, Platform, Endian, load, network_bytes, network_value,
}
use sc4051_distributed_banki.Memory.Reads.{field}
use sc4051_distributed_banki.Memory.Order.{network_value-network_bytes}
use sc4051_distributed_banki.Memory.Words.{append_u32-network}
use sc4051_distributed_banki.Memory.Swap.{
  swap64, double_bytes, double_store, length-double_bytes, load_double, double_bytes-AreBytes,
}
use sc4051_distributed_banki.Protocol.{CallbackMessage}
use sc4051_distributed_banki.CallbackEncoder.{encode_message, decode_message}
use sc4051_distributed_banki.CallbackEncoder.Accepts.{spelled, needed, decode_message_cases}
use native.Mathlib.Nat.{mod-eq_of_lt}

-- The values lie in the ranges of their C++ types, and the declared length is that of the name.
pub record IsCallback (cb : CallbackMessage) : Type 0 where
  pub type_range : cb.type < 256
  pub service_range : cb.service < 256
  pub account_number_range : cb.account_number < 2 ^ 32
  pub name_len : cb.account_owner_name_len ≡ length cb.account_owner_name
  pub name_size : length cb.account_owner_name < 2 ^ 32
  pub name_bytes : AreBytes cb.account_owner_name
  pub currency_range : cb.currency < 256
  pub monetary_value_range : cb.monetary_value < 2 ^ 64

-- [MsgType(1)][ServiceID(1)][AccountNumber(4)][NameLen(4)][Name(N)][Currency(1)][Balance(8)]
abbrev pub front : CallbackMessage → Bytes
front cb =
    cb.type
    ∷ cb.service
    ∷ (network_bytes 4 cb.account_number ++ network_bytes 4 (length cb.account_owner_name))

abbrev pub wire : Endian → CallbackMessage → Bytes
wire e cb = front cb ++ (cb.account_owner_name ++ cb.currency ∷ double_bytes e cb.monetary_value)

-- A message whose values fit and whose declared name length is the name's is written as its header in
-- network order, the name, the currency and the eight bytes of the value: in network order, as documented,
-- on a host that stores the low byte first, and in reverse on a host that stores it last.
pub callback_wire :
    (p : Platform) (cb : CallbackMessage)
    → IsCallback cb
    → encode_message p cb ≡ ok (wire p.endian cb)
unfolding encode_message
callback_wire p cb v = rw (
  mod-eq_of_lt v.type_range,
  mod-eq_of_lt v.service_range,
  mod-eq_of_lt v.currency_range,
  v.name_len,
  append_u32-network p _ cb.account_number v.account_number_range,
  append_u32-network p _ (length cb.account_owner_name) v.name_size,
  double_store p.endian cb.monetary_value,
  append_assoc cb.account_owner_name (cb.currency ∷ []) (double_bytes p.endian cb.monetary_value),
)

module _ (p : Platform) (cb : CallbackMessage) (v : IsCallback cb) (rest : Bytes) where
  -- The whole datagram, cut before the name, the currency and the value.
  abbrev datagram : Bytes
  datagram = wire p.endian cb ++ rest

  cut_name :
      datagram
      ≡ front cb
        ++ (cb.account_owner_name
            ++ (cb.currency ∷ (double_bytes p.endian cb.monetary_value ++ rest)))
  cut_name =
      ap (λ (t : Bytes). front cb ++ t)
        (append_assoc cb.account_owner_name (cb.currency ∷ double_bytes p.endian cb.monetary_value)
          rest)

  cut_currency :
      datagram
      ≡ (front cb ++ cb.account_owner_name)
        ++ (cb.currency ∷ (double_bytes p.endian cb.monetary_value ++ rest))
  cut_currency =
      cut_name
      ∙ sym (
          append_assoc (front cb) cb.account_owner_name
            (cb.currency ∷ (double_bytes p.endian cb.monetary_value ++ rest)))

  cut_value :
      datagram
      ≡ (front cb ++ (cb.account_owner_name ++ cb.currency ∷ []))
        ++ (double_bytes p.endian cb.monetary_value ++ rest)
  cut_value =
      cut_currency
      ∙ sym (
          append_assoc (front cb ++ cb.account_owner_name) (cb.currency ∷ [])
            (double_bytes p.endian cb.monetary_value ++ rest))
      ∙ ap (λ (t : Bytes). t ++ (double_bytes p.endian cb.monetary_value ++ rest))
          (append_assoc (front cb) cb.account_owner_name (cb.currency ∷ []))

  declared : field datagram 6 4 ≡ length cb.account_owner_name
  declared = network_value-network_bytes 4 (length cb.account_owner_name) v.name_size

  name_end : 10 + field datagram 6 4 ≡ length (front cb ++ cb.account_owner_name)
  name_end = omega (arith, declared)

  name_read : take (field datagram 6 4) (drop 10 datagram) ≡ cb.account_owner_name
  name_read =
      rw
        (
          declared,
          append_assoc cb.account_owner_name (cb.currency ∷ double_bytes p.endian cb.monetary_value)
              rest,
        )
        (take-append cb.account_owner_name
          (cb.currency ∷ (double_bytes p.endian cb.monetary_value ++ rest)))

  drop_to_currency :
      (i : ℕ)
      → i ≡ length (front cb ++ cb.account_owner_name)
      → drop i datagram ≡ cb.currency ∷ (double_bytes p.endian cb.monetary_value ++ rest)
  drop_to_currency i e =
      ap (λ (t : Bytes). drop i t) cut_currency
      ∙ drop_after (front cb ++ cb.account_owner_name)
          (cb.currency ∷ (double_bytes p.endian cb.monetary_value ++ rest)) i e

  drop_to_value :
      (i : ℕ)
      → i ≡ length (front cb ++ (cb.account_owner_name ++ cb.currency ∷ []))
      → drop i datagram ≡ double_bytes p.endian cb.monetary_value ++ rest
  drop_to_value i e =
      ap (λ (t : Bytes). drop i t) cut_value
      ∙ drop_after (front cb ++ (cb.account_owner_name ++ cb.currency ∷ []))
          (double_bytes p.endian cb.monetary_value ++ rest) i e

  currency_read : field datagram (10 + field datagram 6 4) 1 ≡ cb.currency
  currency_read =
      ap (λ (t : Bytes). network_value (take 1 t))
        (drop_to_currency (10 + field datagram 6 4) name_end)
      ∙ omega arith

  value_end :
      10 + field datagram 6 4 + 1 ≡ length (front cb ++ (cb.account_owner_name ++ cb.currency ∷ []))
  value_end = omega (arith, declared, length-append cb.account_owner_name (cb.currency ∷ []))

  value_read :
      take 8 (drop (10 + field datagram 6 4 + 1) datagram) ≡ double_bytes p.endian cb.monetary_value
  value_read =
      ap (λ (t : Bytes). take 8 t) (drop_to_value (10 + field datagram 6 4 + 1) value_end)
      ∙ take_after (double_bytes p.endian cb.monetary_value) rest 8
          (sym (length-double_bytes p.endian cb.monetary_value))

  spelled-wire : spelled p datagram ≡ cb
  spelled-wire = λ i. record {
    type = one cb.type i;
    service = one cb.service i;
    account_number = network_value-network_bytes 4 cb.account_number v.account_number_range i;
    account_owner_name_len = (declared ∙ sym v.name_len) i;
    account_owner_name = name_read i;
    currency = currency_read i;
    monetary_value = value i;
  }
    where
      one : (b : ℕ) → b + 256 * 0 ≡ b
      one b = omega arith

      value : (spelled p datagram).monetary_value ≡ cb.monetary_value
      value =
          ap (λ (t : Bytes). swap64 (load p.endian t)) value_read
          ∙ load_double p.endian cb.monetary_value v.monetary_value_range

  length-datagram : length datagram ≡ 19 + length cb.account_owner_name + length rest
  length-datagram = omega (
    arith,
    ap (λ (t : Bytes). length t) cut_name,
    length-append cb.account_owner_name
        (cb.currency ∷ (double_bytes p.endian cb.monetary_value ++ rest)),
    length-append (double_bytes p.endian cb.monetary_value) rest,
    length-double_bytes p.endian cb.monetary_value,
  )

  datagram-AreBytes : AreBytes rest → AreBytes datagram
  datagram-AreBytes h = All-append IsByte (wire p.endian cb) rest written h
    where
      written : AreBytes (wire p.endian cb)
      written = All-append IsByte (front cb) _ (omega (arith, v.type_range, v.service_range)) (
          All-append IsByte cb.account_owner_name _ v.name_bytes
            (v.currency_range, double_bytes-AreBytes p.endian cb.monetary_value))

  decode_message-wire : AreBytes rest → decode_message p datagram ≡ ok cb
  decode_message-wire h =
      decode_message_cases p datagram (datagram-AreBytes h)
      ∙ rw
          (
            ltb-false (length datagram) 19 (omega (arith, length-datagram)),
            ltb-false (length datagram) (needed datagram)
                (omega (arith, length-datagram, declared)),
          )
          (ap ok spelled-wire)

-- A callback that fits is read back as it was on a host of the sender's byte order, whatever follows
-- it in the datagram.
pub callback_round_trip :
    (sender receiver : Platform) (cb : CallbackMessage) (rest : Bytes)
    → sender.endian ≡ receiver.endian
    → IsCallback cb
    → AreBytes rest
    → (encode_message sender cb >>= λ bs. decode_message receiver (bs ++ rest)) ≡ ok cb
callback_round_trip sender receiver cb rest same v h = rw (callback_wire sender cb v) (
    ap (λ (e : Endian). decode_message receiver (wire e cb ++ rest)) same
    ∙ decode_message-wire receiver cb v rest h)
