-- ===== src/Client/Session/Rounds.antt =====
-- What the main loop sends.
use sc4051_distributed_banki.Base.{
  ℕ, zero, suc, ◌≤◌, ◌≡◌, refl, ap, ◌∙◌, List, [], ◌∷◌, ◌++◌, Bool-cases, inl, inr, arith,
}
use sc4051_distributed_banki.Base.Outcome.{Result, ok, fail, crash, unfinished}
use sc4051_distributed_banki.Memory.{Bytes}
use sc4051_distributed_banki.Protocol.{Command}
use sc4051_distributed_banki.Client.State.{Client, Services, continue, ◌>>◌, pure, wait_for_enter}
use sc4051_distributed_banki.Client.Commands.{build_command}
use sc4051_distributed_banki.Client.Commands.Quiet.{build_command-Quiet}
use sc4051_distributed_banki.Client.Send.{build_message, prepare_message}
use sc4051_distributed_banki.Client.Send.Retries.{copies}
use sc4051_distributed_banki.Client.Pipeline.{
  is_monitor, decode_command, start_listening, on_success, execute_request_pipeline,
  execute_client_req, monitor_server_updates,
}
use sc4051_distributed_banki.Client.Pipeline.Exchange.{
  built, execute_request_pipeline_sends, execute_request_pipeline_input,
}
use sc4051_distributed_banki.Client.Pipeline.Unsent.{
  ends_of, decode_command-Unsent, on_success-Unsent, start_listening-Unsent,
}
use sc4051_distributed_banki.Client.Session.{
  Next, stop, go_on, perform, after_command, round, run, is_canceled,
}

-- At most five copies of one datagram were sent.
abbrev pub SendsOne : List Bytes → List Bytes → Type 0
SendsOne before after = (request : Bytes) × (k : ℕ) × (k ≤ 5) × (after ≡ copies k request ++ before)

-- A step that does so, and reads nothing from the terminal.
abbrev pub OneRequest : Client → Client → Type 0
OneRequest c c' = SendsOne c.sent c'.sent × (c'.input ≡ c.input)

one_then_silent : (c c1 c2 : Client) → OneRequest c c1 → ends_of c2 ≡ ends_of c1 → OneRequest c c2
one_then_silent c c1 c2 ((request, k, few, sent), unread) e = (
  (request, k, few, ap (λ (t : List Bytes × Bytes). t.0) e ∙ sent),
  ap (λ (t : List Bytes × Bytes). t.1) e ∙ unread,
)

silent_built : (content : Bytes) (c : Client) → OneRequest c (build_message content c).1
silent_built content c = let x = built content c in (([], 0, omega arith, x.0), x.3)

module _ (s : Services) where
  unencoded :
      (cmd : Command) (c : Client) (r : Result Bytes)
      → s.encode_command cmd ≡ r
      → OneRequest c (execute_request_pipeline s cmd c).1
  unfolding execute_request_pipeline prepare_message
  unencoded cmd c (ok content) e = unserialized (s.serialize (build_message content c).0) refl
    where
      unserialized :
          (r : Result Bytes)
          → s.serialize (build_message content c).0 ≡ r
          → OneRequest c (execute_request_pipeline s cmd c).1
      unserialized (ok request) e' =
          let (k, few, sent, counted) =
            execute_request_pipeline_sends s cmd c content request e e' in
          (
            (request, suc k, omega arith, sent),
            execute_request_pipeline_input s cmd c content request e e',
          )
      unserialized (fail err) e' = rw (e, e') (silent_built content c)
      unserialized crash e' = rw (e, e') (silent_built content c)
      unserialized unfinished e' = rw (e, e') (silent_built content c)
  unencoded cmd c (fail err) e = rw e (([], 0, omega arith, refl), refl)
  unencoded cmd c crash e = rw e (([], 0, omega arith, refl), refl)
  unencoded cmd c unfinished e = rw e (([], 0, omega arith, refl), refl)

  pipeline_OneRequest :
      (cmd : Command) (c : Client) → OneRequest c (execute_request_pipeline s cmd c).1
  pipeline_OneRequest cmd c = unencoded cmd c (s.encode_command cmd) refl

  execute_client_req-OneRequest :
      (cmd : Command) (c : Client) → OneRequest c (execute_client_req s cmd c).1
  unfolding execute_client_req
  execute_client_req-OneRequest cmd c = elim (Bool-cases (is_monitor cmd.service)) [
    | inl monitored ↦ rw monitored (([], 0, omega arith, refl), refl)
    | inr other ↦
        let (r, c1) = execute_request_pipeline s cmd c in
        rw other (
          one_then_silent c c1 (on_success s r (decode_command s) c1).1 (pipeline_OneRequest cmd c)
            (on_success-Unsent s r (decode_command s) (decode_command-Unsent s) c1))
  ]

  monitor_server_updates-OneRequest :
      (fuel : ℕ) (cmd : Command) (c : Client) → OneRequest c (monitor_server_updates s fuel cmd c).1
  unfolding monitor_server_updates
  monitor_server_updates-OneRequest fuel cmd c = elim (Bool-cases (is_monitor cmd.service)) [
    | inr other ↦ rw other (([], 0, omega arith, refl), refl)
    | inl monitored ↦
        let (r, c1) = execute_request_pipeline s cmd c in
        rw monitored (
          one_then_silent c c1 (on_success s r (start_listening s fuel cmd) c1).1
            (pipeline_OneRequest cmd c)
            (on_success-Unsent s r (start_listening s fuel cmd) (start_listening-Unsent s fuel cmd)
              c1))
  ]

  pub perform-OneRequest :
      (fuel : ℕ) (req : Command) (c : Client) → OneRequest c (perform s fuel req c).1
  perform-OneRequest fuel req c = elim (Bool-cases (is_monitor req.service)) [
    | inl monitored ↦ rw monitored (monitor_server_updates-OneRequest fuel req c)
    | inr other ↦ rw other (execute_client_req-OneRequest req c)
  ]

  -- `wait_for_enter` sends nothing.
  after_perform :
      (r : Result (Unit {0})) (c : Client)
      → (continue r (λ u. wait_for_enter >> pure go_on) c).1.sent ≡ c.sent
  after_perform (ok u) c = refl
  after_perform (fail e) c = refl
  after_perform crash c = refl
  after_perform unfinished c = refl

  after_command-SendsOne :
      (fuel : ℕ) (r : Result Command) (c : Client)
      → SendsOne c.sent (after_command s fuel r c).1.sent
  after_command-SendsOne fuel (ok req) c =
      let c1 : Client = record c { screen = _ ∷ c.screen } in
      let (r, c2) = perform s fuel req c1 in
      let ((request, k, few, sent), unread) = perform-OneRequest fuel req c1 in
      (request, k, few, after_perform r c2 ∙ sent)
  after_command-SendsOne fuel (fail e) c = elim (Bool-cases (is_canceled e)) [
    | inl canceled ↦ rw canceled ([], 0, omega arith, refl)
    | inr failed ↦ rw failed ([], 0, omega arith, refl)
  ]
  after_command-SendsOne fuel crash c = ([], 0, omega arith, refl)
  after_command-SendsOne fuel unfinished c = ([], 0, omega arith, refl)

-- Whatever the user types and the network does, a round of the main loop sends at most five copies of
-- one datagram, and nothing else.
pub round-SendsOne :
    (s : Services) (fuel : ℕ) (c : Client)
    → (request : Bytes) × (k : ℕ) × (k ≤ 5) × ((round s fuel c).1.sent ≡ copies k request ++ c.sent)
unfolding round
round-SendsOne s fuel c =
    let shown : Client = record c { screen = _ ∷ _ ∷ c.screen } in
    let (req, c1) = build_command s shown in
    let quiet = build_command-Quiet s shown in
    let (request, k, few, sent) = after_command-SendsOne s fuel req c1 in
    (request, k, few, sent ∙ ap (λ (t : List Bytes). copies k request ++ t) quiet.nothing_sent)

-- The datagrams that n rounds may send: in each of them at most five copies of one.
pub data Sequence : ℕ → List Bytes → List Bytes → Type 0 where
  stopped : (n : ℕ) (before : List Bytes) → Sequence n before before
  request_then :
      (n : ℕ) (before between after : List Bytes)
      → SendsOne before between
      → Sequence n between after
      → Sequence (suc n) before after

module _ (s : Services) (fuel : ℕ) where
  next_round :
      (n : ℕ) (before : List Bytes) (r : Result Next) (c : Client)
      → SendsOne before c.sent
      → ((c' : Client) → Sequence n c'.sent (run s fuel n c').1.sent)
      → Sequence
          (suc n)
          before
          (continue r (elim [ stop ↦ pure tt | go_on ↦ run s fuel n ]) c).1.sent
  next_round n before (ok go_on) c one more = request_then n before c.sent _ one (more c)
  next_round n before (ok stop) c one more = request_then n before c.sent _ one (stopped n c.sent)
  next_round n before (fail e) c one more = request_then n before c.sent _ one (stopped n c.sent)
  next_round n before crash c one more = request_then n before c.sent _ one (stopped n c.sent)
  next_round n before unfinished c one more = request_then n before c.sent _ one (stopped n c.sent)

  -- Whatever the user types and the network does, what n rounds of the main loop send is a sequence of
  -- requests, one for each round that sends any, each up to five times in a row.
  pub run-Sequence : (rounds : ℕ) (c : Client) → Sequence rounds c.sent (run s fuel rounds c).1.sent
  unfolding run
  run-Sequence zero c = stopped zero c.sent
  run-Sequence (suc rounds) c =
      next_round rounds c.sent (round s fuel c).0 (round s fuel c).1 (round-SendsOne s fuel c)
        (run-Sequence rounds)
