-- ===== src/Client/Typed/Served.antt =====
-- From the keyboard to the peer and out: the whole loop on the lines of one request.
use sc4051_distributed_banki.Base.{
  ℕ, suc, ◌<◌, ◌≤◌, ◌≡◌, refl, ap, ◌∙◌, false, List, ◌∷◌, ◌++◌, All, length, ◌==◌,
}
use mathlib.Core.Path.{sym}
use sc4051_distributed_banki.Base.Outcome.{ok, same_value}
use sc4051_distributed_banki.Base.Text.{codes, decimal}
use sc4051_distributed_banki.Memory.{Bytes, Platform}
use sc4051_distributed_banki.Protocol.{Command}
use sc4051_distributed_banki.Protocol.Service
use sc4051_distributed_banki.Serializer
use sc4051_distributed_banki.CmdEncoder.Decode
use sc4051_distributed_banki.CmdEncoder.Wire.{wire}
use sc4051_distributed_banki.Terminal.Input.{newline}
use sc4051_distributed_banki.Client.State.{
  Client, Services, Parsed, print, cyan, print_service_menu, clear_ui,
}
use sc4051_distributed_banki.Client.Input.Asked.{ReturnsDoubles}
use sc4051_distributed_banki.Client.Commands.{build_command}
use sc4051_distributed_banki.Client.Commands.Quiet.{build_command-Quiet}
use sc4051_distributed_banki.Client.Commands.Request.{When}
use sc4051_distributed_banki.Client.Commands.Encodable.{encode_message-request}
use sc4051_distributed_banki.Client.Send.{build_message}
use sc4051_distributed_banki.Client.Send.Replies.{answers}
use sc4051_distributed_banki.Client.Send.Retries.{copies}
use sc4051_distributed_banki.Client.Send.Octets.{IsOctets}
use sc4051_distributed_banki.Client.Pipeline.{is_monitor, execute_client_req}
use sc4051_distributed_banki.Client.Pipeline.Exchange.{prepared}
use sc4051_distributed_banki.Client.Pipeline.Void.{execute_client_req-Void}
use sc4051_distributed_banki.Client.Pipeline.Answered.{serialized, execute_client_req-Returns}
use sc4051_distributed_banki.Client.Pipeline.Understood.{program, IsClient}
use sc4051_distributed_banki.Client.Session.{run, perform}
use sc4051_distributed_banki.Client.Typed.Requests.{Lines}
use sc4051_distributed_banki.Client.Typed.Understood.{typed-IsRequest, typed_request_understood}
use sc4051_distributed_banki.Client.Typed.Session.{
  quit_line, performed_round, two_rounds, ok_only, request_sends, same_built, service_typed,
  performs_request,
}

shown-IsClient :
    (c : Client)
    → IsClient c
    → IsClient (record c { screen = print_service_menu ∷ clear_ui ∷ c.screen })
shown-IsClient c v = record {
  flag_range = v.flag_range;
  request_id_range = v.request_id_range;
  local_ip_range = v.local_ip_range;
  local_port_range = v.local_port_range;
}

module _ (client peer : Platform) (stod : Bytes → Parsed ℕ) (double_to_string : ℕ → Bytes)
    (same : client.endian ≡ peer.endian)
    (doubles : ReturnsDoubles (program client stod double_to_string)) where
  abbrev s : Services
  s = program client stod double_to_string

  -- What a performed request leaves.
  record Performed (fuel : ℕ) (cmd : Command) (c : Client) (request : Bytes) : Type 0 where
    pub returns : (perform s fuel cmd c).0 ≡ ok tt
    pub sends :
        (k : ℕ) × (k < 5) × ((perform s fuel cmd c).1.sent ≡ copies (suc k) request ++ c.sent)
    pub unread : (perform s fuel cmd c).1.input ≡ c.input

  performed :
      (fuel : ℕ) (cmd : Command) (c : Client) (request : Bytes)
      → is_monitor cmd.service ≡ false
      → s.encode_command cmd ≡ ok (wire client.endian cmd)
      → s.serialize (build_message (wire client.endian cmd) c).0 ≡ ok request
      → (execute_client_req s cmd c).0 ≡ ok tt
      → Performed fuel cmd c request
  performed fuel cmd c request other encoded written returned =
      let (k, few, sends, unread) =
        request_sends s cmd c (wire client.endian cmd) request other encoded written in
      record {
        returns = rw (performs_request s fuel cmd c other) returned;
        sends = (k, few, rw (performs_request s fuel cmd c other) sends);
        unread = rw (performs_request s fuel cmd c other) unread;
      }

-- The command that the typed lines make, and its datagram as both sides see it.
record Prepared (client peer : Platform) (stod : Bytes → Parsed ℕ) (double_to_string : ℕ → Bytes)
    (cmd : Command) (rest : Bytes) (c : Client) : Type 0 where
  pub request : Bytes
  pub built : (build_command (program client stod double_to_string) c).0 ≡ ok cmd
  pub unread : (build_command (program client stod double_to_string) c).1.input ≡ rest
  pub written :
      let c' = (build_command (program client stod double_to_string) c).1 in
      Serializer.serialize client (build_message (wire client.endian cmd) c').0 ≡ ok request
  pub read :
      let c' = (build_command (program client stod double_to_string) c).1 in
      Serializer.deserialize peer request ≡ ok (build_message (wire client.endian cmd) c').0
  pub decoded : Decode.decode_message peer (wire client.endian cmd) ≡ ok cmd

typed-Prepared :
    (client peer : Platform) (stod : Bytes → Parsed ℕ) (double_to_string : ℕ → Bytes) (n : ℕ)
    (text : Bytes) (cmd : Command) (rest : Bytes) (c : Client)
    → client.endian ≡ peer.endian
    → ReturnsDoubles (program client stod double_to_string)
    → IsClient c
    → Lines (program client stod double_to_string) n text cmd
    → When (λ (name : Bytes). length name ≤ 1024) cmd.account_owner_name
    → When (λ (name : Bytes). length name ≤ 1024) cmd.tx_account_owner_name
    → c.input ≡ (decimal n ++ newline ∷ text) ++ rest
    → Prepared client peer stod double_to_string cmd rest c
typed-Prepared client peer stod double_to_string n text cmd rest c same doubles v typed short
      short_tx e =
    let s = program client stod double_to_string in
    let content = wire client.endian cmd in
    let c' : Client = (build_command s c).1 in
    let (built, left, datagram, made, read, decoded) =
      typed_request_understood client peer stod double_to_string n text cmd rest c same doubles v
        typed short short_tx e in
    let encoded =
      encode_message-request client cmd (typed-IsRequest s n text cmd rest c doubles typed e) short
        short_tx in
    let (request, written) = serialized client (build_message content c').0 in
    let once =
      same_value _ datagram request made
        (ap (λ t. t.0) (prepared s cmd c' content request encoded written)) in
    record {
      request = request;
      built = built;
      unread = left;
      written = written;
      read = ap (Serializer.deserialize peer) (sym once) ∙ read;
      decoded = decoded;
    }

-- A whole session. The user types the number of a service other than MONITOR and the lines of a request
-- to it, presses Enter twice behind the answer and types 0. Whatever `send_message` returns and whatever
-- datagrams of bytes or errors `receive_message` returns, as long as five of its answers are no callbacks,
-- the main loop ends without an error, having sent at most five copies of one datagram and nothing else;
-- and this repository's C++ codecs, on any platform of the client's byte order, read that datagram as the
-- message of the client's next request, whose content they decode to the very command that was typed. The
-- names have no more characters than a decoder accepts.
pub typed_session :
    (client peer : Platform) (stod : Bytes → Parsed ℕ) (double_to_string : ℕ → Bytes)
    (fuel rounds n : ℕ) (text : Bytes) (cmd : Command) (c : Client)
    → client.endian ≡ peer.endian
    → ReturnsDoubles (program client stod double_to_string)
    → IsClient c
    → Lines (program client stod double_to_string) n text cmd
    → (n == Service.monitor) ≡ false
    → When (λ (name : Bytes). length name ≤ 1024) cmd.account_owner_name
    → When (λ (name : Bytes). length name ≤ 1024) cmd.tx_account_owner_name
    → All IsOctets c.incoming
    → 5 ≤ answers c.incoming
    → c.input ≡ (decimal n ++ newline ∷ text) ++ newline ∷ newline ∷ quit_line
    → let (r, c') = run (program client stod double_to_string) fuel (suc (suc rounds)) c in
      (r ≡ ok tt)
      × (request : Bytes) × (k : ℕ) × (k < 5)
      × (c'.sent ≡ copies (suc k) request ++ c.sent)
      × (Serializer.deserialize peer request ≡ ok (build_message (wire client.endian cmd) c).0)
      × (Decode.decode_message peer (wire client.endian cmd) ≡ ok cmd)
typed_session client peer stod double_to_string fuel rounds n text cmd c same doubles v typed other
      short short_tx octets enough e =
    let s = program client stod double_to_string in
    let content = wire client.endian cmd in
    let shown : Client = record c { screen = print_service_menu ∷ clear_ui ∷ c.screen } in
    let c2 : Client = (build_command s shown).1 in
    let sending : Client = record c2 {
      screen = print (codes "[ SENDING REQUEST TO SERVER ]\n") cyan ∷ c2.screen;
    } in
    let ready =
      typed-Prepared client peer stod double_to_string n text cmd (newline ∷ newline ∷ quit_line)
        shown same doubles (shown-IsClient c v) typed short short_tx e in
    let quiet = build_command-Quiet s shown in
    let asked =
      typed-IsRequest s n text cmd (newline ∷ newline ∷ quit_line) shown doubles typed e in
    let encoded = encode_message-request client cmd asked short short_tx in
    let ordinary : is_monitor cmd.service ≡ false = rw (service_typed s n text cmd typed) other in
    let arriving : All IsOctets sending.incoming = rw quiet.nothing_received octets in
    let still_enough : 5 ≤ answers sending.incoming = rw quiet.nothing_received enough in
    let returned =
      ok_only (execute_client_req s cmd sending).0
        (execute_client_req-Returns client stod double_to_string cmd sending asked short short_tx
          arriving still_enough)
        (execute_client_req-Void s cmd sending) in
    let done =
      performed client peer stod double_to_string same doubles fuel cmd sending ready.request
        ordinary encoded
        (ap (Serializer.serialize client) (same_built content c2 sending refl) ∙ ready.written)
        returned in
    let (k, few, sends) = done.sends in
    let (on, rest_left, rest_sent) =
      performed_round s fuel c c2 cmd quit_line (ap (λ r. (r, c2)) ready.built) done.returns
        (done.unread ∙ ready.unread) in
    let (ends, silent) = two_rounds s fuel rounds c on rest_left in
    (
      ends,
      ready.request,
      k,
      few,
      silent
          ∙ rest_sent
          ∙ sends
          ∙ ap (λ (t : List Bytes). copies (suc k) ready.request ++ t) quiet.nothing_sent,
      ready.read ∙ ap ok (same_built content c c2 quiet.same_identity),
      ready.decoded,
    )
