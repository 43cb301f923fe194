-- ===== src/Client/Pipeline/Answered.antt =====
-- The client with the program's own codecs: what it makes of whatever datagrams arrive.
use sc4051_distributed_banki.Base.{
  ℕ, suc, ◌≤◌, ◌<◌, ◌^◌, ◌≡◌, refl, Bool, true, false, [], ◌∷◌, All, length, ltb, ◌==◌, Bool-cases,
  Option-cases, inl, inr, arith, if◌then◌else◌,
}
use sc4051_distributed_banki.Base.Outcome.{
  InternalError, Result, ok, fail, crash, unfinished, Returns, deserialize_header_too_short,
  deserialize_payload_overflow,
}
use sc4051_distributed_banki.Memory.{Bytes, AreBytes, Platform}
use sc4051_distributed_banki.Protocol.{Command, Message, IsMessage}
use sc4051_distributed_banki.Serializer
use sc4051_distributed_banki.Serializer.Accepts.{
  spelled, content_end, deserialize_cases, deserialize-IsMessage,
}
use sc4051_distributed_banki.CmdEncoder.Decode
use sc4051_distributed_banki.CmdEncoder.Safety.{decode_message-Returns}
use sc4051_distributed_banki.CmdEncoder.Wire.{wire}
use sc4051_distributed_banki.CmdEncoder.Encode
use sc4051_distributed_banki.Client.State.{
  Client, Services, Output, Parsed, continue, or_say, ◌>>=◌, ◌>>◌, pure,
}
use sc4051_distributed_banki.Client.Send.{send_to_server, build_message}
use sc4051_distributed_banki.Client.Send.Replies.{answers}
use sc4051_distributed_banki.Client.Send.Retries.{Ends, send_to_server-Exchanged}
use sc4051_distributed_banki.Client.Pipeline.{
  is_monitor, decode_message, decode_status_code, decode_command, show_content, on_success,
  execute_request_pipeline, execute_client_req,
}
use sc4051_distributed_banki.Client.Pipeline.Exchange.{built, prepared}
use sc4051_distributed_banki.Client.Pipeline.Understood.{program}
use sc4051_distributed_banki.Client.Commands.Request.{IsRequest, When}
use sc4051_distributed_banki.Client.Commands.Encodable.{encode_message-request}
use sc4051_distributed_banki.Client.Send.Octets.{IsOctets, Reply, send_to_server-Reply}

-- A message whose content a decoder can read, or an error.
abbrev Readable : Result Message → Type 0
Readable (ok msg) = IsMessage msg
Readable (fail e) = Unit
Readable crash = ⊥
Readable unfinished = ⊥

refused_or :
    (a b : Bool) (e1 e2 : InternalError) (m : Message)
    → Returns (if a then fail e1 else if b then fail e2 else ok m)
refused_or true b e1 e2 m = tt
refused_or false true e1 e2 m = tt
refused_or false false e1 e2 m = tt

Returns-Readable :
    (r : Result Message) → Returns r → ((m : Message) → r ≡ ok m → IsMessage m) → Readable r
Returns-Readable (ok m) h k = k m refl
Returns-Readable (fail e) h k = tt
Returns-Readable crash h k = h
Returns-Readable unfinished h k = h

deserialize-Readable :
    (p : Platform) (bs : Bytes) → AreBytes bs → Readable (Serializer.deserialize p bs)
deserialize-Readable p bs h =
    Returns-Readable (Serializer.deserialize p bs)
      (rw (deserialize_cases p bs h) (
        refused_or (ltb (length bs) 18) (ltb (length bs) (content_end bs))
          deserialize_header_too_short deserialize_payload_overflow (spelled bs)))
      (λ m e. deserialize-IsMessage p bs m h e)

-- The serializer never fails.
pub serialized :
    (p : Platform) (m : Message) → (request : Bytes) × (Serializer.serialize p m ≡ ok request)
unfolding Serializer.serialize
serialized p m = (_, refl)

module _ (p : Platform) (stod : Bytes → Parsed ℕ) (double_to_string : ℕ → Bytes) where
  abbrev s : Services
  s = program p stod double_to_string

  status-Readable :
      (msg : Message) (c : Client)
      → IsMessage msg
      → Readable ((decode_status_code s msg >> pure msg) c).0
  unfolding decode_status_code
  status-Readable msg c h = elim (Bool-cases (msg.payload.status_code == 0)) [
    | inl success ↦ rw success h
    | inr refused ↦ rw refused tt
  ]

  judged-Readable :
      (d : Result Message) (f : InternalError → Output) (c : Client)
      → Readable d
      → Readable ((or_say d f >>= λ msg. decode_status_code s msg >> pure msg) c).0
  judged-Readable (ok msg) f c h = status-Readable msg c h
  judged-Readable (fail e) f c h = tt
  judged-Readable crash f c h = h
  judged-Readable unfinished f c h = h

  answered-Readable :
      (n k : ℕ) (r : Result Bytes) (c : Client)
      → k ≤ n
      → Ends 5 n k r
      → Reply r
      → Readable
          (continue r
            (λ response. decode_message s response >>= λ msg. decode_status_code s msg >> pure msg)
            c).0
  unfolding decode_message
  answered-Readable n k (ok raw) c enough h octets =
      judged-Readable (Serializer.deserialize p raw) _ c (deserialize-Readable p raw octets)
  answered-Readable n k (fail e) c enough h octets = tt
  answered-Readable n k crash c enough h octets = h
  answered-Readable n k unfinished c enough h octets = absurd (omega arith)

  content-Returns : (r : Result Command) (c : Client) → Returns r → Returns (show_content s r c).0
  content-Returns (ok cmd) c h = elim (Option-cases cmd.account_number) [
    | inl no_number ↦ elim (Option-cases cmd.monetary_value) [
      | inl no_value ↦ rw (no_number, no_value) tt
      | inr (v, a_value) ↦ rw (no_number, a_value) tt
    ]
    | inr (n, a_number) ↦ elim (Option-cases cmd.monetary_value) [
      | inl no_value ↦ rw (a_number, no_value) tt
      | inr (v, a_value) ↦ rw (a_number, a_value) tt
    ]
  ]
  content-Returns (fail e) c h = tt
  content-Returns crash c h = h
  content-Returns unfinished c h = h

  decode_command-Returns :
      (msg : Message) (c : Client) → IsMessage msg → Returns (decode_command s msg c).0
  unfolding decode_command
  decode_command-Returns msg c h = by_content msg.payload.content h.content_bytes h.content_size
    where
      by_content :
          (content : Bytes)
          → AreBytes content
          → length content < 2 ^ 32
          → Returns
              (decode_command s
                (record msg { payload = record msg.payload { content = content } })
                c).0
      by_content [] octets short = tt
      by_content (b ∷ bs) octets short =
          content-Returns (Decode.decode_message p (b ∷ bs)) c
            (decode_message-Returns p (b ∷ bs) octets (omega arith))

  success-Returns :
      (r : Result Message) (c : Client)
      → Readable r
      → Returns (on_success s r (decode_command s) c).0
  success-Returns (ok msg) c h = decode_command-Returns msg c h
  success-Returns (fail e) c h = tt
  success-Returns crash c h = h
  success-Returns unfinished c h = h

  pipeline-Readable :
      (cmd : Command) (c : Client) (content : Bytes)
      → Encode.encode_message p cmd ≡ ok content
      → All IsOctets c.incoming
      → 5 ≤ answers c.incoming
      → Readable (execute_request_pipeline s cmd c).0
  unfolding execute_request_pipeline
  pipeline-Readable cmd c content encoded octets enough =
      let (request, written) = serialized p (build_message content c).0 in
      let c1 = (build_message content c).1 in
      let (nothing_sent, waiting, works, unread) = built content c in
      let octets1 : All IsOctets c1.incoming = rw waiting octets in
      let enough1 : 5 ≤ answers c1.incoming = rw waiting enough in
      let (r, c2) = send_to_server request c1 in
      let (k, x) = send_to_server-Exchanged request c1 in
      rw (prepared s cmd c content request encoded written) (
        answered-Readable (answers c1.incoming) (suc k) r c2 (omega (arith, x.not_more, enough1))
          x.ends (send_to_server-Reply request c1 octets1))

-- Whatever `send_message` returns and whatever `receive_message` does, datagrams of bytes or errors, as
-- long as five of its answers are no callbacks, a request that the dialogue returned, other than one to
-- monitor, is executed to its end: nothing in an answer makes the client read outside a buffer or throw.
-- Its names have no more characters than a decoder accepts.
pub execute_client_req-Returns :
    (p : Platform) (stod : Bytes → Parsed ℕ) (double_to_string : ℕ → Bytes) (cmd : Command)
    (c : Client)
    → IsRequest cmd
    → When (λ (name : Bytes). length name ≤ 1024) cmd.account_owner_name
    → When (λ (name : Bytes). length name ≤ 1024) cmd.tx_account_owner_name
    → All IsOctets c.incoming
    → 5 ≤ answers c.incoming
    → Returns (execute_client_req (program p stod double_to_string) cmd c).0
unfolding execute_client_req
execute_client_req-Returns p stod double_to_string cmd c asked short short_tx octets enough =
    elim (Bool-cases (is_monitor cmd.service)) [
      | inl monitored ↦ rw monitored tt
      | inr other ↦
          let s = program p stod double_to_string in
          let (r, c1) = execute_request_pipeline s cmd c in
          let encoded = encode_message-request p cmd asked short short_tx in
          rw other (
            success-Returns p stod double_to_string r c1 (
              pipeline-Readable p stod double_to_string cmd c (wire p.endian cmd) encoded octets
                enough))
    ]
