-- ===== src/Serializer/Layout.antt =====
-- The bytes of a message on the wire, described with no word of memory and no host.
use sc4051_distributed_banki.Base.{◌≡◌, refl, ◌∷◌, ◌++◌, length}
use sc4051_distributed_banki.Base.Outcome.{ok}
use sc4051_distributed_banki.Memory.{Bytes, Platform, network_bytes}
use sc4051_distributed_banki.Memory.Words.{append_u32-network, append_u16-network}
use sc4051_distributed_banki.Protocol.{Message, IsMessage}
use sc4051_distributed_banki.Serializer.{serialize}
use native.Mathlib.Nat.{mod-eq_of_lt}

-- [Type(1b)][Flag(1b)][ID(4b)][IP(4b)][Port(2b)][Status Code(2b)][StrLen(4b)]
abbrev pub header : Message → Bytes
header m =
    m.type
    ∷ m.flag
    ∷ (network_bytes 4 m.id.request_id
        ++ (network_bytes 4 m.id.ipv4_address
            ++ (network_bytes 2 m.id.port
                ++ (network_bytes 2 m.payload.status_code
                    ++ network_bytes 4 (length m.payload.content)))))

abbrev pub wire : Message → Bytes
wire m = header m ++ m.payload.content

pub length-header : (m : Message) → length (header m) ≡ 18
length-header m = refl

-- On every platform `serialize` writes a message that fits as the network-order header, 18 bytes in
-- the order of the format, followed by the content.
pub serialize-wire : (p : Platform) (m : Message) → IsMessage m → serialize p m ≡ ok (wire m)
unfolding serialize
serialize-wire p m v = rw (
  mod-eq_of_lt v.type_range,
  mod-eq_of_lt v.flag_range,
  mod-eq_of_lt v.content_size,
  append_u32-network p _ m.id.request_id v.request_id_range,
  append_u32-network p _ m.id.ipv4_address v.ipv4_address_range,
  append_u16-network p _ m.id.port v.port_range,
  append_u16-network p _ m.payload.status_code v.status_code_range,
  append_u32-network p _ (length m.payload.content) v.content_size,
)
