-- ===== src/Client/Pipeline/Unsent.antt =====
-- What is done with an answer, and the listener, send nothing and read nothing from the terminal.
use sc4051_distributed_banki.Base.{
  ℕ, zero, suc, ◌+◌, ◌-◌, ◌*◌, ◌^◌, ◌≡◌, refl, ◌∙◌, Option, none, some, List, [], ◌∷◌, Bool-cases,
  Option-cases, inl, inr, ltb,
}
use sc4051_distributed_banki.Base.Outcome.{Result, ok, fail, crash, unfinished, or_crash}
use sc4051_distributed_banki.Base.Text.{codes}
use sc4051_distributed_banki.Memory.{Bytes}
use sc4051_distributed_banki.Protocol.{Command, Message, CallbackMessage}
use sc4051_distributed_banki.Client.State.{
  Client, Io, Services, Received, datagram, lost, print, cyan, continue, ◌>>=◌, ◌>>◌, lift, say,
}
use sc4051_distributed_banki.Client.Send.{is_callback}
use sc4051_distributed_banki.Client.Pipeline.{
  is_timeout, print_reply, show_content, decode_command, show_callback, show_received, listen_round,
  listen_loop, listen_server, on_success, start_listening,
}

-- What was sent, and what the terminal is going to deliver.
abbrev pub ends_of : Client → List Bytes × Bytes
ends_of c = (c.sent, c.input)

-- A run that sends nothing, and reads nothing from the terminal.
abbrev pub Unsent : {A : Type 0} → Io A → Type 0
Unsent m = (c : Client) → ends_of (m c).1 ≡ ends_of c

pub continue-Unsent :
    {A B : Type 0} (r : Result A) (f : A → Io B) (c : Client)
    → ((a : A) → Unsent (f a))
    → ends_of (continue r f c).1 ≡ ends_of c
continue-Unsent (ok a) f c h = h a c
continue-Unsent (fail e) f c h = refl
continue-Unsent crash f c h = refl
continue-Unsent unfinished f c h = refl

pub bind-Unsent :
    {A B : Type 0} (m : Io A) (f : A → Io B)
    → Unsent m
    → ((a : A) → Unsent (f a))
    → Unsent (m >>= f)
bind-Unsent m f h k c = continue-Unsent (m c).0 f (m c).1 k ∙ h c

module _ (s : Services) where
  print_reply-Unsent : (cmd : Command) → Unsent (print_reply s cmd)
  print_reply-Unsent cmd c = elim (Option-cases cmd.account_number) [
    | inl no_number ↦ elim (Option-cases cmd.monetary_value) [
      | inl no_value ↦ rw (no_number, no_value) refl
      | inr (v, a_value) ↦ rw (no_number, a_value) refl
    ]
    | inr (n, a_number) ↦ elim (Option-cases cmd.monetary_value) [
      | inl no_value ↦ rw (a_number, no_value) refl
      | inr (v, a_value) ↦ rw (a_number, a_value) refl
    ]
  ]

  show_content-Unsent : (r : Result Command) → Unsent (show_content s r)
  show_content-Unsent (ok cmd) c = print_reply-Unsent cmd c
  show_content-Unsent (fail e) c = refl
  show_content-Unsent crash c = refl
  show_content-Unsent unfinished c = refl

  pub decode_command-Unsent : (msg : Message) → Unsent (decode_command s msg)
  unfolding decode_command
  decode_command-Unsent msg = by_content msg.payload.content
    where
      by_content :
          (content : Bytes)
          → Unsent
              (decode_command s (record msg { payload = record msg.payload { content = content } }))
      by_content [] c = refl
      by_content (b ∷ bs) c = show_content-Unsent (s.decode_command (b ∷ bs)) c

  show_callback-Unsent : (r : Result CallbackMessage) → Unsent (show_callback s r)
  show_callback-Unsent (ok msg) c = refl
  show_callback-Unsent (fail e) c = refl
  show_callback-Unsent crash c = refl
  show_callback-Unsent unfinished c = refl

  show_received-Unsent : (r : Received) → Unsent (show_received s r)
  show_received-Unsent (lost e) c = elim (Bool-cases (is_timeout e)) [
    | inl waiting ↦ rw waiting refl
    | inr failed ↦ rw failed refl
  ]
  show_received-Unsent (datagram raw) c = elim (Bool-cases (is_callback raw)) [
    | inl pushed ↦ rw pushed (show_callback-Unsent (s.decode_callback raw) c)
    | inr other ↦ rw other refl
  ]

  listen_round-Unsent : Unsent (listen_round s)
  listen_round-Unsent c = by_queue c.incoming
    where
      by_queue :
          (q : List Received) → ends_of (listen_round s (record c { incoming = q })).1 ≡ ends_of c
      by_queue [] = refl
      by_queue (r ∷ q) = show_received-Unsent r (record c { incoming = q })

  listen_loop-Unsent : (fuel start time : ℕ) → Unsent (listen_loop s fuel start time)
  unfolding listen_loop
  listen_loop-Unsent zero start time c = refl
  listen_loop-Unsent (suc fuel) start time c =
      elim (Bool-cases (ltb (c.clock c.readings - start) (time * 10 ^ 9))) [
        | inl early ↦ rw early (
            bind-Unsent (listen_round s) (λ u. listen_loop s fuel start time) listen_round-Unsent
              (λ u. listen_loop-Unsent fuel start time) (record c { readings = c.readings + 1 }))
        | inr over ↦ rw over refl
      ]

  listen_server-Unsent : (fuel time : ℕ) → Unsent (listen_server s fuel time)
  unfolding listen_server
  listen_server-Unsent fuel time c =
      listen_loop-Unsent fuel (c.clock c.readings) time (record c { readings = c.readings + 1 })

  pub on_success-Unsent :
      (r : Result Message) (f : Message → Io (Unit {0}))
      → ((msg : Message) → Unsent (f msg))
      → Unsent (on_success s r f)
  on_success-Unsent (ok msg) f h c = h msg c
  on_success-Unsent (fail e) f h c = refl
  on_success-Unsent crash f h c = refl
  on_success-Unsent unfinished f h c = refl

  timed : (fuel : ℕ) (o : Option ℕ) → Unsent (lift (or_crash o) >>= listen_server s fuel)
  timed fuel none c = refl
  timed fuel (some time) c = listen_server-Unsent fuel time c

  timed_said :
      (fuel : ℕ) (o : Option ℕ)
      → Unsent (
          say (print (codes "[ Listening TO SERVER ]\n") cyan)
          >> (lift (or_crash o) >>= listen_server s fuel))
  timed_said fuel o c = timed fuel o (record c { screen = _ ∷ c.screen })

  pub start_listening-Unsent :
      (fuel : ℕ) (cmd : Command) (msg : Message) → Unsent (start_listening s fuel cmd msg)
  start_listening-Unsent fuel cmd msg =
      bind-Unsent (decode_command s msg) _ (decode_command-Unsent msg)
        (λ u. timed_said fuel cmd.monitor_timeout_seconds)
