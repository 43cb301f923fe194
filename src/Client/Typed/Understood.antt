-- ===== src/Client/Typed/Understood.antt =====
-- From the keyboard to the peer that decodes the request.
use sc4051_distributed_banki.Base.{ℕ, ◌≤◌, ◌≡◌, ap, ◌∷◌, ◌++◌, length}
use mathlib.Core.Path.{subst}
use sc4051_distributed_banki.Base.Outcome.{ok}
use sc4051_distributed_banki.Base.Text.{decimal}
use sc4051_distributed_banki.Memory.{Bytes, Platform}
use sc4051_distributed_banki.Protocol.{Command}
use sc4051_distributed_banki.Serializer
use sc4051_distributed_banki.CmdEncoder.Decode
use sc4051_distributed_banki.CmdEncoder.Wire.{wire}
use sc4051_distributed_banki.Terminal.Input.{newline}
use sc4051_distributed_banki.Client.State.{Client, Services, Parsed}
use sc4051_distributed_banki.Client.Input.Quiet.{identity_of}
use sc4051_distributed_banki.Client.Input.Asked.{Ensures, ReturnsDoubles}
use sc4051_distributed_banki.Client.Commands.{build_command}
use sc4051_distributed_banki.Client.Commands.Quiet.{build_command-Quiet}
use sc4051_distributed_banki.Client.Commands.Request.{IsRequest, When}
use sc4051_distributed_banki.Client.Commands.Menu.{build_command-IsRequest}
use sc4051_distributed_banki.Client.Commands.Encodable.{IsRequest-IsCommand, encode_message-request}
use sc4051_distributed_banki.Client.Send.{build_message, prepare_message}
use sc4051_distributed_banki.Client.Pipeline.Understood.{
  program, IsClient, prepare_message_understood,
}
use sc4051_distributed_banki.Client.Typed.Requests.{Lines}
use sc4051_distributed_banki.Client.Typed.Chosen.{build_command-Lines}

-- The ranges of the client's own values stay through a dialogue.
identity-IsClient : (c c' : Client) → identity_of c' ≡ identity_of c → IsClient c → IsClient c'
identity-IsClient c c' e v =
    let id : c'.current_request_id ≡ c.current_request_id = ap (λ (t : ℕ × ℕ × ℕ × ℕ). t.0) e in
    let flag : c'.flag ≡ c.flag = ap (λ (t : ℕ × ℕ × ℕ × ℕ). t.1) e in
    let ip : c'.local_ip ≡ c.local_ip = ap (λ (t : ℕ × ℕ × ℕ × ℕ). t.2) e in
    let port : c'.local_port ≡ c.local_port = ap (λ (t : ℕ × ℕ × ℕ × ℕ). t.3) e in
    record {
      flag_range = rw flag v.flag_range;
      request_id_range = rw id v.request_id_range;
      local_ip_range = rw ip v.local_ip_range;
      local_port_range = rw port v.local_port_range;
    }

-- What the lines of a request spell is a request of the dialogue.
pub typed-IsRequest :
    (s : Services) (n : ℕ) (text : Bytes) (cmd : Command) (rest : Bytes) (c : Client)
    → ReturnsDoubles s
    → Lines s n text cmd
    → c.input ≡ (decimal n ++ newline ∷ text) ++ rest
    → IsRequest cmd
typed-IsRequest s n text cmd rest c doubles typed e =
    subst (Ensures IsRequest) (build_command-Lines s n text cmd rest c typed e).0
      (build_command-IsRequest s c doubles)

-- The number of a service and the lines of a request to it become the command that the lines spell, what
-- is typed behind them is left, and the command is serialized: this repository's C++ codecs, on any
-- platform of the client's byte order, read the datagram as a message and decode its content to the
-- command. The names have no more characters than a decoder accepts.
pub typed_request_understood :
    (client peer : Platform) (stod : Bytes → Parsed ℕ) (double_to_string : ℕ → Bytes) (n : ℕ)
    (text : Bytes) (cmd : Command) (rest : Bytes) (c : Client)
    → client.endian ≡ peer.endian
    → ReturnsDoubles (program client stod double_to_string)
    → IsClient c
    → Lines (program client stod double_to_string) n text cmd
    → When (λ (name : Bytes). length name ≤ 1024) cmd.account_owner_name
    → When (λ (name : Bytes). length name ≤ 1024) cmd.tx_account_owner_name
    → c.input ≡ (decimal n ++ newline ∷ text) ++ rest
    → let (r, c') = build_command (program client stod double_to_string) c in
      (r ≡ ok cmd)
      × (c'.input ≡ rest)
      × (request : Bytes) × ((prepare_message (program client stod double_to_string) cmd c').0
          ≡ ok request)
      × (Serializer.deserialize peer request ≡ ok (build_message (wire client.endian cmd) c').0)
      × (Decode.decode_message peer (wire client.endian cmd) ≡ ok cmd)
typed_request_understood client peer stod double_to_string n text cmd rest c same doubles v typed
      short short_tx e =
    let s = program client stod double_to_string in
    let c' = (build_command s c).1 in
    let (built, left) = build_command-Lines s n text cmd rest c typed e in
    let request = typed-IsRequest s n text cmd rest c doubles typed e in
    let v' = identity-IsClient c c' (build_command-Quiet s c).same_identity v in
    let (datagram, made, read, decoded) =
      prepare_message_understood client peer stod double_to_string cmd c' (wire client.endian cmd)
        same (IsRequest-IsCommand cmd request short short_tx) v'
        (encode_message-request client cmd request short short_tx) in
    (built, left, datagram, made, read, decoded)
