-- ===== src/Serializer/RoundTrip.antt =====
-- `serialize` and `deserialize` undo one another.
use sc4051_distributed_banki.Base.{
  ℕ, ◌+◌, ◌*◌, ◌≤◌, ◌≡◌, ap, ◌∙◌, ◌++◌, length, take, arith, length-append, All-append, take-append,
  ltb-false,
}
use sc4051_distributed_banki.Base.Outcome.{ok, ◌>>=◌}
use sc4051_distributed_banki.Memory.{Bytes, IsByte, AreBytes, Platform}
use sc4051_distributed_banki.Memory.Order.{network_value-network_bytes}
use sc4051_distributed_banki.Protocol.{Message, IsMessage}
use sc4051_distributed_banki.Serializer.{serialize, deserialize}
use sc4051_distributed_banki.Serializer.Layout.{header, wire, serialize-wire}
use sc4051_distributed_banki.Serializer.Accepts.{spelled, content_end, deserialize_cases}

header-AreBytes : (m : Message) → IsMessage m → AreBytes (header m)
header-AreBytes m v = omega arith

spelled-wire : (m : Message) (rest : Bytes) → IsMessage m → spelled (wire m ++ rest) ≡ m
spelled-wire m rest v = λ i. record {
  type = one m.type i;
  flag = one m.flag i;
  id = record {
    request_id = network_value-network_bytes 4 m.id.request_id v.request_id_range i;
    ipv4_address = network_value-network_bytes 4 m.id.ipv4_address v.ipv4_address_range i;
    port = network_value-network_bytes 2 m.id.port v.port_range i;
  };
  payload = record {
    status_code = network_value-network_bytes 2 m.payload.status_code v.status_code_range i;
    content = content i;
  };
}
  where
    one : (b : ℕ) → b + 256 * 0 ≡ b
    one b = omega arith

    content : (spelled (wire m ++ rest)).payload.content ≡ m.payload.content
    content =
        ap (λ (n : ℕ). take n (m.payload.content ++ rest))
          (network_value-network_bytes 4 (length m.payload.content) v.content_size)
        ∙ take-append m.payload.content rest

-- Whatever follows it in the datagram, a serialized message is read back as it was; the platforms of
-- the sender and of the receiver need not agree.
pub deserialize-serialize :
    (sender receiver : Platform) (m : Message) (rest : Bytes)
    → IsMessage m
    → AreBytes rest
    → (serialize sender m >>= λ bs. deserialize receiver (bs ++ rest)) ≡ ok m
deserialize-serialize sender receiver m rest v h = rw (serialize-wire sender m v) (
    deserialize_cases receiver (wire m ++ rest) bytes
    ∙ rw (ltb-false _ _ long, ltb-false _ _ whole) (ap ok (spelled-wire m rest v)))
  where
    bytes : AreBytes (wire m ++ rest)
    bytes =
        All-append IsByte (wire m) rest
          (All-append IsByte (header m) m.payload.content (header-AreBytes m v) v.content_bytes) h

    long : 18 ≤ length (wire m ++ rest)
    long = omega arith

    whole : content_end (wire m ++ rest) ≤ length (wire m ++ rest)
    whole = omega (
      arith,
      length-append m.payload.content rest,
      network_value-network_bytes 4 (length m.payload.content) v.content_size,
    )
