-- ===== src/Client/Pipeline/Exchange.antt =====
-- `execute_request_pipeline`: what it sends for a command, and what it takes for the answer.
use sc4051_distributed_banki.Base.{
  ℕ, suc, ◌<◌, ◌≡◌, refl, ap, ◌∙◌, List, ◌++◌, ◌==◌, Bool-cases, inl, inr,
}
use sc4051_distributed_banki.Base.Outcome.{InternalError, Result, ok, fail, crash, unfinished}
use sc4051_distributed_banki.Memory.{Bytes}
use sc4051_distributed_banki.Protocol.{Command, Message}
use sc4051_distributed_banki.Client.State.{
  Client, Io, Services, Output, or_say, continue, ◌>>=◌, ◌>>◌, pure,
}
use sc4051_distributed_banki.Client.Send.{
  at_most_once, build_message, prepare_message, send_to_server,
}
use sc4051_distributed_banki.Client.Send.Retries.{copies, send_to_server-Exchanged}
use sc4051_distributed_banki.Client.Pipeline.{
  decode_message, decode_status_code, execute_request_pipeline,
}

-- A request counts, and leaves the socket and the terminal alone.
pub built :
    (content : Bytes) (c : Client)
    → let c' = (build_message content c).1 in
      (c'.sent ≡ c.sent)
      × (c'.incoming ≡ c.incoming)
      × (c'.send_result ≡ c.send_result)
      × (c'.input ≡ c.input)
unfolding build_message
built content c = elim (Bool-cases (c.flag == at_most_once)) [
  | inl counted ↦ rw counted (refl, refl, refl, refl)
  | inr uncounted ↦ rw uncounted (refl, refl, refl, refl)
]

module _ (s : Services) where
  pub prepared :
      (cmd : Command) (c : Client) (content request : Bytes)
      → s.encode_command cmd ≡ ok content
      → s.serialize (build_message content c).0 ≡ ok request
      → prepare_message s cmd c ≡ (ok request, (build_message content c).1)
  unfolding prepare_message
  prepared cmd c content request encoded serialized = rw (encoded, serialized) refl

  -- What follows `send_to_server` in the pipeline.
  abbrev rest_of_pipeline : Bytes → Io Message
  rest_of_pipeline response =
      decode_message s response >>= λ msg. decode_status_code s msg >> pure msg

  -- It sends nothing, counts nothing and reads nothing from the terminal.
  judged :
      (msg : Message) (c : Client)
      → let c' = ((decode_status_code s msg >> pure msg) c).1 in
        (c'.sent ≡ c.sent) × (c'.current_request_id ≡ c.current_request_id) × (c'.input ≡ c.input)
  unfolding decode_status_code
  judged msg c = elim (Bool-cases (msg.payload.status_code == 0)) [
    | inl success ↦ rw success (refl, refl, refl)
    | inr refused ↦ rw refused (refl, refl, refl)
  ]

  understood :
      (d : Result Message) (f : InternalError → Output) (c : Client)
      → let c' = ((or_say d f >>= λ msg. decode_status_code s msg >> pure msg) c).1 in
        (c'.sent ≡ c.sent) × (c'.current_request_id ≡ c.current_request_id) × (c'.input ≡ c.input)
  understood (ok msg) f c = judged msg c
  understood (fail e) f c = (refl, refl, refl)
  understood crash f c = (refl, refl, refl)
  understood unfinished f c = (refl, refl, refl)

  silent :
      (r : Result Bytes) (c : Client)
      → let c' = (continue r rest_of_pipeline c).1 in
        (c'.sent ≡ c.sent) × (c'.current_request_id ≡ c.current_request_id) × (c'.input ≡ c.input)
  unfolding decode_message
  silent (ok response) c = understood (s.deserialize response) _ c
  silent (fail e) c = (refl, refl, refl)
  silent crash c = (refl, refl, refl)
  silent unfinished c = (refl, refl, refl)

-- The pipeline reads nothing from the terminal, once its request is serialized.
pub execute_request_pipeline_input :
    (s : Services) (cmd : Command) (c : Client) (content request : Bytes)
    → s.encode_command cmd ≡ ok content
    → s.serialize (build_message content c).0 ≡ ok request
    → (execute_request_pipeline s cmd c).1.input ≡ c.input
unfolding execute_request_pipeline
execute_request_pipeline_input s cmd c content request encoded serialized =
    rw (prepared s cmd c content request encoded serialized) (
      let c1 = (build_message content c).1 in
      let (r, c2) = send_to_server request c1 in
      let (k, x) = send_to_server-Exchanged request c1 in
      let (quiet, uncounted, unread) = silent s r c2 in
      let (unsent, waiting, works, unread1) = built content c in unread ∙ x.same_input ∙ unread1)

-- For a command that can be encoded and serialized, everything that is sent is the one serialized
-- request, once to five times: a retransmission carries the request id of the first try. The client
-- has taken the step of `build_message` and no other.
pub execute_request_pipeline_sends :
    (s : Services) (cmd : Command) (c : Client) (content request : Bytes)
    → s.encode_command cmd ≡ ok content
    → s.serialize (build_message content c).0 ≡ ok request
    → let c' = (execute_request_pipeline s cmd c).1 in
      (k : ℕ) × (k < 5)
      × (c'.sent ≡ copies (suc k) request ++ c.sent)
      × (c'.current_request_id ≡ (build_message content c).1.current_request_id)
unfolding execute_request_pipeline
execute_request_pipeline_sends s cmd c content request encoded serialized =
    rw (prepared s cmd c content request encoded serialized) (
      let c1 = (build_message content c).1 in
      let (r, c2) = send_to_server request c1 in
      let (k, x) = send_to_server-Exchanged request c1 in
      let (quiet, uncounted, unread) = silent s r c2 in
      (
        k,
        x.not_more,
        quiet
            ∙ x.sent_copies
            ∙ ap (λ (t : List Bytes). copies (suc k) request ++ t) (built content c).0,
        uncounted ∙ x.same_request_id,
      ))
