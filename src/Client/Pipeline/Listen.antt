-- ===== src/Client/Pipeline/Listen.antt =====
-- `listen_server`: when it ends, and what it has shown then.
use sc4051_distributed_banki.Base.{
  [], ◌∷◌, length, arith, ◌<◌, ℕ, zero, suc, ◌+◌, ◌-◌, ◌*◌, ◌^◌, ◌≤◌, ◌≡◌, refl, ◌∙◌, List, ◌++◌,
  take, drop, append_assoc, sym, ap, Bool-cases, inl, inr, ltb, ltb-false,
}
use mathlib.Core.Path.{subst}
use sc4051_distributed_banki.Base.Outcome.{Result, ok}
use sc4051_distributed_banki.Client.State.{Client, Io, Services, Output, Received, continue}
use sc4051_distributed_banki.Client.Pipeline.{listen_round, listen_loop, listen_server}
use sc4051_distributed_banki.Client.Pipeline.Seen.{
  AreDecoded, seen, seen_step, drop_step, Listened, queue_shown,
}

module _ (s : Services) where
  -- The listener ends at the first reading, of those behind its start, at which the time has passed,
  -- and has shown what it took before, in the order of arrival.
  pub record Ends (n start time : ℕ) (c : Client) (r : Result (Unit {0})) (c' : Client)
      : Type 0 where
    pub rounds : ℕ
    pub few : rounds ≤ n
    pub passed : time * 10 ^ 9 ≤ c.clock (c.readings + rounds) - start
    pub before : (i : ℕ) → i < rounds → c.clock (c.readings + i) - start < time * 10 ^ 9
    pub returned : r ≡ ok tt
    pub taken : c'.incoming ≡ drop rounds c.incoming
    pub all_seen : c'.screen ≡ seen s (take rounds c.incoming) ++ c.screen
    pub nothing_sent : c'.sent ≡ c.sent
    pub same_request_id : c'.current_request_id ≡ c.current_request_id

  abbrev Ended : ℕ → ℕ → ℕ → Client → Result (Unit {0}) × Client → Type 0
  Ended n start time c (r, c') = Ends n start time c r c'

  -- The clock passes the time at its n-th reading from here.
  abbrev Passes : ℕ → ℕ → ℕ → Client → Type 0
  Passes n start time c = time * 10 ^ 9 ≤ c.clock (c.readings + n) - start

  Passes-later :
      (n start time : ℕ) (c c' : Client)
      → c'.clock ≡ c.clock
      → c'.readings ≡ c.readings + 1
      → Passes (suc n) start time c
      → Passes n start time c'
  Passes-later n start time c c' t r h =
      rw (t, r) (subst (λ i. time * 10 ^ 9 ≤ c.clock i - start) (omega arith) h)

  Passes-earlier :
      (n start time : ℕ) (c c' : Client)
      → c'.clock ≡ c.clock
      → c'.readings ≡ c.readings + 1
      → Passes n start time c'
      → Passes (suc n) start time c
  Passes-earlier n start time c c' t r h =
      subst (λ i. time * 10 ^ 9 ≤ c.clock i - start) (omega arith)
        (subst (λ (k : ℕ → ℕ). time * 10 ^ 9 ≤ k (c'.readings + n) - start) t h)

  still_early :
      (m start time : ℕ) (c c' : Client)
      → c'.clock ≡ c.clock
      → c'.readings ≡ c.readings + 1
      → c.clock c.readings - start < time * 10 ^ 9
      → ((i : ℕ) → i < m → c'.clock (c'.readings + i) - start < time * 10 ^ 9)
      → (i : ℕ) → i < suc m
      → c.clock (c.readings + i) - start < time * 10 ^ 9
  still_early m start time c c' t r now later zero below =
      subst (λ i. c.clock i - start < time * 10 ^ 9) (omega arith) now
  still_early m start time c c' t r now later (suc i) below =
      subst (λ k. c.clock k - start < time * 10 ^ 9) (omega arith)
        (subst (λ (k : ℕ → ℕ). k (c'.readings + i) - start < time * 10 ^ 9) t
          (later i (omega arith)))

  -- The rest of the loop behind a round, where the rest ends. The round began with a reading of the clock.
  after_round :
      (n start time : ℕ) (r : Result (Unit {0})) (c c' : Client) (next : Io (Unit {0}))
      → c.clock c.readings - start < time * 10 ^ 9
      → Listened s (record c { readings = c.readings + 1 }) r c'
      → Ended n start time c' (next c')
      → Ended (suc n) start time c (continue r (λ u. next) c')
  after_round n start time r c c' next now x y = rw x.returned (record {
    rounds = suc y.rounds;
    few = omega (arith, y.few);
    passed = Passes-earlier y.rounds start time c c' x.same_clock x.same_readings y.passed;
    before = still_early y.rounds start time c c' x.same_clock x.same_readings now y.before;
    returned = y.returned;
    taken =
        y.taken
        ∙ ap (λ (q : List Received). drop y.rounds q) x.taken
        ∙ drop_step s y.rounds c.incoming;
    all_seen =
        y.all_seen
        ∙ ap (λ (q : List Received). seen s (take y.rounds q) ++ c'.screen) x.taken
        ∙ ap (λ (o : List Output). seen s (take y.rounds (drop 1 c.incoming)) ++ o) x.seen_now
        ∙ sym (
            append_assoc (seen s (take y.rounds (drop 1 c.incoming))) (seen s (take 1 c.incoming))
              c.screen)
        ∙ ap (λ (o : List Output). o ++ c.screen) (sym (seen_step s y.rounds c.incoming));
    nothing_sent = y.nothing_sent ∙ x.nothing_sent;
    same_request_id = y.same_request_id ∙ x.same_request_id;
  })

  -- The loop ends at once.
  at_once :
      (n start time : ℕ) (c : Client)
      → time * 10 ^ 9 ≤ c.clock c.readings - start
      → Ends n start time c (ok tt) (record c { readings = c.readings + 1 })
  at_once n start time c now = record {
    rounds = 0;
    few = omega arith;
    passed = subst (λ i. time * 10 ^ 9 ≤ c.clock i - start) (omega arith) now;
    before = λ i below. elim below [ ];
    returned = refl;
    taken = refl;
    all_seen = refl;
    nothing_sent = refl;
    same_request_id = refl;
  }

  drop_known : (n : ℕ) (q : List Received) → suc n ≤ length q → n ≤ length (drop 1 q)
  drop_known n [] h = absurd (omega arith)
  drop_known n (r ∷ q) h = omega arith

  listen_loop-Ends :
      (fuel n start time : ℕ) (c : Client)
      → AreDecoded s c.incoming
      → n ≤ length c.incoming
      → n < fuel
      → Passes n start time c
      → Ended n start time c (listen_loop s fuel start time c)
  unfolding listen_loop
  listen_loop-Ends zero n start time c h known enough passed = elim enough [ ]
  listen_loop-Ends (suc fuel) zero start time c h known enough passed =
      let now : time * 10 ^ 9 ≤ c.clock c.readings - start =
        subst (λ i. time * 10 ^ 9 ≤ c.clock i - start) (omega arith) passed in
      rw (ltb-false _ _ now) (at_once 0 start time c now)
  listen_loop-Ends (suc fuel) (suc n) start time c h known enough passed =
      elim (Bool-cases (ltb (c.clock c.readings - start) (time * 10 ^ 9))) [
        | inr over ↦ rw over (at_once (suc n) start time c (ground arith))
        | inl early ↦
            let c1 : Client = record c { readings = c.readings + 1 } in
            let (r, c2) = listen_round s c1 in
            let x : Listened s c1 r c2 = queue_shown s c1.incoming c1 (omega arith) h in
            let still_known : n ≤ length c2.incoming = rw x.taken (drop_known n c.incoming known) in
            rw early (
              after_round n start time r c c2 (listen_loop s fuel start time) (ground arith) x (
                listen_loop-Ends fuel n start time c2 x.still_decoded still_known (omega arith)
                  (Passes-later n start time c c2 x.same_clock x.same_readings passed)))
      ]

-- When the clock passes the asked time at one of its next `fuel` readings, `receive_message` answers once
-- for each reading before that, and the callbacks among these answers can be decoded or are refused,
-- `listen_server` ends without an error: it receives once for each reading before the first that passes
-- the time, and what it received it has shown, in the order of arrival: a callback's box, or the error. It
-- has sent nothing and counted no request.
pub listen_server-Ends :
    (s : Services) (fuel n time : ℕ) (c : Client)
    → AreDecoded s c.incoming
    → n ≤ length c.incoming
    → n < fuel
    → time * 10 ^ 9 ≤ c.clock (c.readings + 1 + n) - c.clock c.readings
    → let (r, c') = listen_server s fuel time c in
      Ends s n (c.clock c.readings) time (record c { readings = c.readings + 1 }) r c'
unfolding listen_server
listen_server-Ends s fuel n time c h known enough passed =
    listen_loop-Ends s fuel n (c.clock c.readings) time (record c { readings = c.readings + 1 }) h
      known enough passed
