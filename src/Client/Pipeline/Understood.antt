-- ===== src/Client/Pipeline/Understood.antt =====
-- The client with the program's own codecs: a peer that reads by the same codecs understands what it
-- sends.
use sc4051_distributed_banki.Base.{
  ℕ, ◌<◌, ◌^◌, ◌≡◌, sym, ap, ◌∙◌, [], length, arith, append-nil, Bool-cases, inl, inr, ◌==◌,
}
use sc4051_distributed_banki.Base.Outcome.{ok}
use sc4051_distributed_banki.Memory.{Bytes, AreBytes, Platform}
use sc4051_distributed_banki.Protocol.{Command, Message, IsMessage}
use sc4051_distributed_banki.Serializer
use sc4051_distributed_banki.Serializer.Layout
use sc4051_distributed_banki.Serializer.RoundTrip.{deserialize-serialize}
use sc4051_distributed_banki.CmdEncoder.Encode
use sc4051_distributed_banki.CmdEncoder.Decode
use sc4051_distributed_banki.CmdEncoder.Wire.{IsCommand, wire}
use sc4051_distributed_banki.CmdEncoder.Layout.{encode_message-wire}
use sc4051_distributed_banki.CmdEncoder.RoundTrip.{decode_message-encode_message, non_empty_ok}
use sc4051_distributed_banki.CmdEncoder.Size.{wire_size}
use sc4051_distributed_banki.CallbackEncoder
use sc4051_distributed_banki.Client.State.{Client, Services, Parsed}
use sc4051_distributed_banki.Client.Send.{build_message, prepare_message, at_most_once}
use sc4051_distributed_banki.Client.Pipeline.Exchange.{prepared}

-- main.cpp builds the client with the program's codecs; the standard library's two functions on the
-- text of a double stay parameters.
abbrev pub program : Platform → (Bytes → Parsed ℕ) → (ℕ → Bytes) → Services
program p stod double_to_string = record {
  encode_command = Encode.encode_message p;
  decode_command = Decode.decode_message p;
  decode_callback = CallbackEncoder.decode_message p;
  serialize = Serializer.serialize p;
  deserialize = Serializer.deserialize p;
  stod = stod;
  double_to_string = double_to_string;
  toupper_negative = p.toupper_negative;
}

-- The values lie in the ranges of their C++ types.
pub record IsClient (c : Client) : Type 0 where
  pub flag_range : c.flag < 256
  pub request_id_range : c.current_request_id < 2 ^ 32
  pub local_ip_range : c.local_ip < 2 ^ 32
  pub local_port_range : c.local_port < 2 ^ 16

built_request_id :
    (content : Bytes) (c : Client) → IsClient c → (build_message content c).0.id.request_id < 2 ^ 32
unfolding build_message
built_request_id content c v = elim (Bool-cases (c.flag == at_most_once)) [
  | inl counted ↦ rw counted (omega arith)
  | inr uncounted ↦ rw uncounted (omega arith)
]

built-IsMessage :
    (content : Bytes) (c : Client)
    → IsClient c
    → AreBytes content
    → length content < 2 ^ 32
    → IsMessage (build_message content c).0
unfolding build_message
built-IsMessage content c v octets short = record {
  type_range = omega arith;
  flag_range = v.flag_range;
  request_id_range = built_request_id content c v;
  ipv4_address_range = v.local_ip_range;
  port_range = v.local_port_range;
  status_code_range = omega arith;
  content_bytes = octets;
  content_size = short;
}

-- For a command whose values fit and that the encoder encoded, `prepare_message` makes a datagram that
-- this repository's C++ codecs, on any platform of the client's byte order, read as the client's message,
-- and whose content they decode to the command.
pub prepare_message_understood :
    (client peer : Platform) (stod : Bytes → Parsed ℕ) (double_to_string : ℕ → Bytes)
    (cmd : Command) (c : Client) (content : Bytes)
    → client.endian ≡ peer.endian
    → IsCommand cmd
    → IsClient c
    → Encode.encode_message client cmd ≡ ok content
    → (request : Bytes) × ((prepare_message (program client stod double_to_string) cmd c).0
        ≡ ok request)
      × (Serializer.deserialize peer request ≡ ok (build_message content c).0)
      × (Decode.decode_message peer content ≡ ok cmd)
prepare_message_understood client peer stod double_to_string cmd c content same v vc encoded = (
  Layout.wire m,
  ap (λ t. t.0)
      (prepared (program client stod double_to_string) cmd c content (Layout.wire m) encoded
        written),
  ap (λ (t : Bytes). Serializer.deserialize peer t) (sym (append-nil (Layout.wire m)))
      ∙ (rw written at (deserialize-serialize client peer m [] fits tt)),
  ap (λ (t : Bytes). Decode.decode_message peer t) (sym (append-nil content))
      ∙ decode_message-encode_message client peer cmd content [] same v (omega arith) encoded,
)
  where
    m : Message
    m = (build_message content c).0

    whole : (wire client.endian cmd ≡ content) × (0 < length content)
    whole =
        non_empty_ok (wire client.endian cmd) content
          (sym (encode_message-wire client cmd v) ∙ encoded)

    fits : IsMessage m
    fits =
        let (octets, short) = wire_size client.endian cmd v in
        built-IsMessage content c vc (rw (← whole.0) octets) (rw (← whole.0) (omega (arith, short)))

    written : Serializer.serialize client m ≡ ok (Layout.wire m)
    written = Layout.serialize-wire client m fits
