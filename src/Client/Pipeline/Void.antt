-- ===== src/Client/Pipeline/Void.antt =====
-- The methods of the pipeline that return void: what they call may fail, they do not.
use sc4051_distributed_banki.Base.{
  ℕ, zero, suc, ◌+◌, ◌-◌, ◌*◌, ◌^◌, Option, none, some, List, [], ◌∷◌, Bool-cases, Option-cases,
  inl, inr, ltb,
}
use sc4051_distributed_banki.Base.Outcome.{Result, ok, fail, crash, unfinished, or_crash}
use sc4051_distributed_banki.Memory.{Bytes}
use sc4051_distributed_banki.Protocol.{Command, Message, CallbackMessage}
use sc4051_distributed_banki.Client.State.{Client, Io, Services, Received, datagram, lost, continue}
use sc4051_distributed_banki.Client.Send.{is_callback}
use sc4051_distributed_banki.Client.Pipeline.{
  is_timeout, is_monitor, print_reply, show_content, decode_command, show_callback, show_received,
  listen_round, listen_loop, listen_server, on_success, start_listening, execute_request_pipeline,
  execute_client_req, monitor_server_updates,
}

-- A run without an error of its own.
abbrev pub NoError : {A : Type 0} → Result A → Type 0
NoError (ok a) = Unit
NoError (fail e) = ⊥
NoError crash = Unit
NoError unfinished = Unit

abbrev Void : Io (Unit {0}) → Type 0
Void m = (c : Client) → NoError (m c).0

continue-Void :
    {A : Type 0} (r : Result A) (f : A → Io (Unit {0})) (c : Client)
    → NoError r
    → ((a : A) → Void (f a))
    → NoError (continue r f c).0
continue-Void (ok a) f c h k = k a c
continue-Void (fail e) f c h k = h
continue-Void crash f c h k = tt
continue-Void unfinished f c h k = tt

module _ (s : Services) where
  print_reply-Void : (cmd : Command) → Void (print_reply s cmd)
  print_reply-Void cmd c = elim (Option-cases cmd.account_number) [
    | inl no_number ↦ elim (Option-cases cmd.monetary_value) [
      | inl no_value ↦ rw (no_number, no_value) tt
      | inr (v, a_value) ↦ rw (no_number, a_value) tt
    ]
    | inr (n, a_number) ↦ elim (Option-cases cmd.monetary_value) [
      | inl no_value ↦ rw (a_number, no_value) tt
      | inr (v, a_value) ↦ rw (a_number, a_value) tt
    ]
  ]

  show_content-Void : (r : Result Command) → Void (show_content s r)
  show_content-Void (ok cmd) c = print_reply-Void cmd c
  show_content-Void (fail e) c = tt
  show_content-Void crash c = tt
  show_content-Void unfinished c = tt

  decode_command-Void : (msg : Message) → Void (decode_command s msg)
  unfolding decode_command
  decode_command-Void msg = by_content msg.payload.content
    where
      by_content :
          (content : Bytes)
          → Void
              (decode_command s (record msg { payload = record msg.payload { content = content } }))
      by_content [] c = tt
      by_content (b ∷ bs) c = show_content-Void (s.decode_command (b ∷ bs)) c

  show_callback-Void : (r : Result CallbackMessage) → Void (show_callback s r)
  show_callback-Void (ok msg) c = tt
  show_callback-Void (fail e) c = tt
  show_callback-Void crash c = tt
  show_callback-Void unfinished c = tt

  show_received-Void : (r : Received) → Void (show_received s r)
  show_received-Void (lost e) c = elim (Bool-cases (is_timeout e)) [
    | inl waiting ↦ rw waiting tt
    | inr failed ↦ rw failed tt
  ]
  show_received-Void (datagram raw) c = elim (Bool-cases (is_callback raw)) [
    | inl pushed ↦ rw pushed (show_callback-Void (s.decode_callback raw) c)
    | inr other ↦ rw other tt
  ]

  listen_round-Void : Void (listen_round s)
  listen_round-Void c = by_queue c.incoming
    where
      by_queue : (q : List Received) → NoError (listen_round s (record c { incoming = q })).0
      by_queue [] = tt
      by_queue (r ∷ q) = show_received-Void r (record c { incoming = q })

  listen_loop-Void : (fuel start time : ℕ) → Void (listen_loop s fuel start time)
  unfolding listen_loop
  listen_loop-Void zero start time c = tt
  listen_loop-Void (suc fuel) start time c =
      elim (Bool-cases (ltb (c.clock c.readings - start) (time * 10 ^ 9))) [
        | inl early ↦ rw early (
            let (r, c1) = listen_round s (record c { readings = c.readings + 1 }) in
            continue-Void r (λ u. listen_loop s fuel start time) c1
              (listen_round-Void (record c { readings = c.readings + 1 }))
              (λ u. listen_loop-Void fuel start time))
        | inr over ↦ rw over tt
      ]

  listening-Void :
      (fuel : ℕ) (o : Option ℕ) (c : Client)
      → NoError (continue (or_crash o) (listen_server s fuel) c).0
  unfolding listen_server
  listening-Void fuel none c = tt
  listening-Void fuel (some time) c =
      listen_loop-Void fuel (c.clock c.readings) time (record c { readings = c.readings + 1 })

  start_listening-Void :
      (fuel : ℕ) (cmd : Command) (msg : Message) → Void (start_listening s fuel cmd msg)
  start_listening-Void fuel cmd msg c =
      let (r, c1) = decode_command s msg c in
      continue-Void r _ c1 (decode_command-Void msg c) (λ u c2.
        listening-Void fuel cmd.monitor_timeout_seconds (record c2 { screen = _ ∷ c2.screen }))

  on_success-Void :
      (r : Result Message) (f : Message → Io (Unit {0}))
      → ((msg : Message) → Void (f msg))
      → Void (on_success s r f)
  on_success-Void (ok msg) f h c = h msg c
  on_success-Void (fail e) f h c = tt
  on_success-Void crash f h c = tt
  on_success-Void unfinished f h c = tt

  pub execute_client_req-Void :
      (cmd : Command) (c : Client) → NoError (execute_client_req s cmd c).0
  unfolding execute_client_req
  execute_client_req-Void cmd c = elim (Bool-cases (is_monitor cmd.service)) [
    | inl monitored ↦ rw monitored tt
    | inr other ↦
        let (r, c1) = execute_request_pipeline s cmd c in
        rw other (on_success-Void r (decode_command s) decode_command-Void c1)
  ]

  pub monitor_server_updates-Void :
      (fuel : ℕ) (cmd : Command) (c : Client) → NoError (monitor_server_updates s fuel cmd c).0
  unfolding monitor_server_updates
  monitor_server_updates-Void fuel cmd c = elim (Bool-cases (is_monitor cmd.service)) [
    | inr other ↦ rw other tt
    | inl monitored ↦
        let (r, c1) = execute_request_pipeline s cmd c in
        rw monitored
          (on_success-Void r (start_listening s fuel cmd) (start_listening-Void fuel cmd) c1)
  ]
