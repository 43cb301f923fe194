-- ===== src/Client/Session/Ends.antt =====
-- When the main loop ends.
use sc4051_distributed_banki.Base.{
  ℕ, zero, suc, ◌<◌, ◌≡◌, refl, ap, true, false, ◌∷◌, length, Bool-cases, inl, inr, arith,
}
use sc4051_distributed_banki.Base.Outcome.{
  InternalError, Result, ok, fail, crash, unfinished, user_quit,
}
use sc4051_distributed_banki.Base.Text.{codes}
use sc4051_distributed_banki.Errors
use sc4051_distributed_banki.Memory.{Bytes}
use sc4051_distributed_banki.Terminal.Input.Shrinks.{wait_for_enter-length}
use sc4051_distributed_banki.Protocol.{Command}
use sc4051_distributed_banki.Client.State.{
  Client, Io, Services, print, print_error, print_service_menu, clear_ui, cyan, continue, ◌>>◌,
  pure, wait_for_enter,
}
use sc4051_distributed_banki.Client.Commands.{build_command}
use sc4051_distributed_banki.Client.Commands.Quiet.{Takes, build_command-Takes}
use sc4051_distributed_banki.Client.Input.Asked.{Ensures, ReturnsDoubles}
use sc4051_distributed_banki.Client.Commands.Request.{IsRequest}
use sc4051_distributed_banki.Client.Commands.Menu.{build_command-IsRequest}
use sc4051_distributed_banki.Client.Pipeline.{is_monitor}
use sc4051_distributed_banki.Client.Pipeline.Void.{
  NoError, execute_client_req-Void, monitor_server_updates-Void,
}
use sc4051_distributed_banki.Client.Session.{
  Next, stop, go_on, perform, after_command, round, run, is_canceled,
}
use sc4051_distributed_banki.Client.Session.Rounds.{perform-OneRequest}

-- A round that goes on took at least one byte from the terminal.
abbrev GoesOn : Bytes → Result Next × Client → Type 0
GoesOn before (r, c') = r ≡ ok go_on → length c'.input < length before

module _ (s : Services) (fuel : ℕ) where
  served-GoesOn :
      (before : Bytes) (r : Result (Unit {0})) (c : Client)
      → length c.input < length before
      → GoesOn before (continue r (λ u. wait_for_enter >> pure go_on) c)
  served-GoesOn before (ok u) c h e = omega (arith, wait_for_enter-length c.input)
  served-GoesOn before (fail err) c h e = absurd cc
  served-GoesOn before crash c h e = absurd cc
  served-GoesOn before unfinished c h e = absurd cc

  -- Any error but a cancelled dialogue ends the loop.
  failed_stop :
      (err : InternalError) (c : Client)
      → is_canceled err ≡ false
      → after_command s fuel (fail err) c
        ≡ (ok stop, record c { screen = print_error (Errors.to_string err) ∷ c.screen })
  failed_stop err c other = rw other refl

  canceled_go_on :
      (err : InternalError) (c : Client)
      → is_canceled err ≡ true
      → after_command s fuel (fail err) c ≡ (ok go_on, c)
  canceled_go_on err c canceled = rw canceled refl

  still_less :
      (before : Bytes) (err : InternalError) (c : Client)
      → is_canceled err ≡ true
      → Takes before (fail err, c)
      → length c.input < length before
  still_less before err c canceled (inl quit) =
      absurd (let quits : is_canceled user_quit ≡ false = refl in cc)
  still_less before err c canceled (inr less) = less

  after_command-GoesOn :
      (before : Bytes) (r : Result Command) (c : Client)
      → Takes before (r, c)
      → GoesOn before (after_command s fuel r c)
  after_command-GoesOn before (ok req) c (inl quit) e = absurd cc
  after_command-GoesOn before (ok req) c (inr less) e =
      let c1 : Client = record c { screen = _ ∷ c.screen } in
      let (r, c2) = perform s fuel req c1 in
      let (sent, unread) = perform-OneRequest s fuel req c1 in
      served-GoesOn before r c2 (rw unread less) e
  after_command-GoesOn before (fail err) c took e = elim (Bool-cases (is_canceled err)) [
    | inl canceled ↦ rw (canceled_go_on err c canceled) (still_less before err c canceled took)
    | inr other ↦
        absurd (let stops = ap (λ (x : Result Next × Client). x.0) (failed_stop err c other) in cc)
  ]
  after_command-GoesOn before crash c took e = absurd cc
  after_command-GoesOn before unfinished c took e = absurd cc

  round-GoesOn : (c : Client) → GoesOn c.input (round s fuel c)
  unfolding round
  round-GoesOn c =
      let shown : Client = record c { screen = _ ∷ _ ∷ c.screen } in
      let (r, c1) = build_command s shown in
      after_command-GoesOn c.input r c1 (build_command-Takes s shown)

  -- The client behind the first two calls of a round, and behind the announcement of a request.
  abbrev menu_shown : Client → Client
  menu_shown c = record c { screen = print_service_menu ∷ clear_ui ∷ c.screen }

  abbrev announced : Client → Client
  announced c = record c {
    screen = print (codes "[ SENDING REQUEST TO SERVER ]\n") cyan ∷ c.screen;
  }

  -- The run from c calls `perform` with req at c'.
  pub data Performs : Client → Command → Client → Type 0 where
    now :
        (c : Client) (req : Command) (c1 : Client)
        → build_command s (menu_shown c) ≡ (ok req, c1)
        → Performs c req (announced c1)
    later :
        (c : Client) (req : Command) (c' : Client)
        → (round s fuel c).0 ≡ ok go_on
        → Performs (round s fuel c).1 req c'
        → Performs c req c'

  -- How a run from c ends: with a value, or as one of its calls of `perform` ended that did not return.
  abbrev pub EndsAs : {A : Type 0} → Client → Result A → Type 0
  EndsAs c (ok a) = Unit
  EndsAs c (fail e) = ⊥
  EndsAs c crash =
      (req : Command) × (c' : Client) × Performs c req c' × ((perform s fuel req c').0 ≡ crash)
  EndsAs c unfinished =
      (req : Command) × (c' : Client) × Performs c req c' × ((perform s fuel req c').0 ≡ unfinished)

  perform-NoError : (req : Command) (c : Client) → NoError (perform s fuel req c).0
  perform-NoError req c = elim (Bool-cases (is_monitor req.service)) [
    | inl monitored ↦ rw monitored (monitor_server_updates-Void s fuel req c)
    | inr other ↦ rw other (execute_client_req-Void s req c)
  ]

  served-EndsAs :
      (start : Client) (req : Command) (c : Client) (r : Result (Unit {0})) (c2 : Client)
      → Performs start req c
      → (perform s fuel req c).0 ≡ r
      → NoError r
      → EndsAs start (continue r (λ u. wait_for_enter >> pure go_on) c2).0
  served-EndsAs start req c (ok u) c2 here e h = tt
  served-EndsAs start req c (fail err) c2 here e h = h
  served-EndsAs start req c crash c2 here e h = (req, c, here, e)
  served-EndsAs start req c unfinished c2 here e h = (req, c, here, e)

  after_command-EndsAs :
      (start : Client) (r : Result Command) (c : Client)
      → build_command s (menu_shown start) ≡ (r, c)
      → Ensures IsRequest r
      → EndsAs start (after_command s fuel r c).0
  after_command-EndsAs start (ok req) c built h =
      let (r, c2) = perform s fuel req (announced c) in
      served-EndsAs start req (announced c) r c2 (now start req c built) refl
        (perform-NoError req (announced c))
  after_command-EndsAs start (fail err) c built h = elim (Bool-cases (is_canceled err)) [
    | inl canceled ↦ rw (canceled_go_on err c canceled) tt
    | inr other ↦ rw (failed_stop err c other) tt
  ]
  after_command-EndsAs start crash c built h = elim h [ ]
  after_command-EndsAs start unfinished c built h = elim h [ ]

  round-EndsAs : (c : Client) → ReturnsDoubles s → EndsAs c (round s fuel c).0
  unfolding round
  round-EndsAs c doubles =
      let (r, c1) = build_command s (menu_shown c) in
      after_command-EndsAs c r c1 refl (build_command-IsRequest s (menu_shown c) doubles)

  EndsAs-later :
      (c : Client) (r : Result (Unit {0}))
      → (round s fuel c).0 ≡ ok go_on
      → EndsAs (round s fuel c).1 r
      → EndsAs c r
  EndsAs-later c (ok u) on h = tt
  EndsAs-later c (fail e) on h = h
  EndsAs-later c crash on (req, c', there, e) = (req, c', later c req c' on there, e)
  EndsAs-later c unfinished on (req, c', there, e) = (req, c', later c req c' on there, e)

  abbrev and_on : ℕ → Next → Io (Unit {0})
  and_on n stop = pure tt
  and_on n go_on = run s fuel n

  next-EndsAs :
      (start : Client) (n : ℕ) (r : Result Next) (c : Client)
      → EndsAs start r
      → (r ≡ ok go_on → EndsAs start (run s fuel n c).0)
      → EndsAs start (continue r (and_on n) c).0
  next-EndsAs start n (ok go_on) c h more = more refl
  next-EndsAs start n (ok stop) c h more = tt
  next-EndsAs start n (fail e) c h more = h
  next-EndsAs start n crash c h more = h
  next-EndsAs start n unfinished c h more = h

  next_same :
      (n m : ℕ) (r : Result Next) (c : Client)
      → (r ≡ ok go_on → run s fuel n c ≡ run s fuel m c)
      → continue r (and_on n) c ≡ continue r (and_on m) c
  next_same n m (ok go_on) c more = more refl
  next_same n m (ok stop) c more = refl
  next_same n m (fail e) c more = refl
  next_same n m crash c more = refl
  next_same n m unfinished c more = refl

  run_step :
      (n : ℕ) (c : Client)
      → run s fuel (suc n) c ≡ continue (round s fuel c).0 (and_on n) (round s fuel c).1
  unfolding run
  run_step n c = refl

-- As many rounds as the input has bytes and one more are enough: more of them change nothing.
run_enough :
    (s : Services) (fuel n m : ℕ) (c : Client)
    → length c.input < n
    → length c.input < m
    → run s fuel n c ≡ run s fuel m c
run_enough s fuel zero m c h k = absurd (omega arith)
run_enough s fuel (suc n) zero c h k = absurd (omega arith)
run_enough s fuel (suc n) (suc m) c h k =
    let (r, c1) = round s fuel c in
    rw (run_step s fuel n c, run_step s fuel m c)
      (next_same s fuel n m r c1 (λ on.
        let less = round-GoesOn s fuel c on in
        run_enough s fuel n m c1 (omega arith) (omega arith)))

run-EndsAs :
    (s : Services) (fuel n : ℕ) (c : Client)
    → ReturnsDoubles s
    → length c.input < n
    → EndsAs s fuel c (run s fuel n c).0
run-EndsAs s fuel zero c doubles h = absurd (omega arith)
run-EndsAs s fuel (suc n) c doubles h =
    let (r, c1) = round s fuel c in
    rw (run_step s fuel n c) (
      next-EndsAs s fuel c n r c1 (round-EndsAs s fuel c doubles) (λ on.
        let less = round-GoesOn s fuel c on in
        EndsAs-later s fuel c (run s fuel n c1).0 on
          (run-EndsAs s fuel n c1 doubles (omega arith))))

-- A round that goes on takes a byte of the input at least, and at its end the user quits. So with one
-- round more than the input has bytes the main loop returns, or one of the calls of
-- `execute_client_req` or `monitor_server_updates` that this very run makes did not; no input makes
-- it fail, or its dialogue not end. And any other number of rounds that is as large gives the same run.
pub run_ends :
    (s : Services) (fuel n m : ℕ) (c : Client)
    → ReturnsDoubles s
    → length c.input < n
    → length c.input < m
    → EndsAs s fuel c (run s fuel n c).0 × (run s fuel n c ≡ run s fuel m c)
run_ends s fuel n m c doubles h k = (run-EndsAs s fuel n c doubles h, run_enough s fuel n m c h k)
