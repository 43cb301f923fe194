-- ===== src/Client/Pipeline/Seen.antt =====
-- One round of `listen_server`: what it takes off the queue, and what it shows of that.
use sc4051_distributed_banki.Base.{
  length, arith, ◌<◌, ℕ, zero, suc, ◌≡◌, refl, true, List, [], ◌∷◌, ◌++◌, take, drop, if◌then◌else◌,
  Bool-cases, inl, inr,
}
use sc4051_distributed_banki.Base.Outcome.{Result, ok, fail, crash, unfinished, Returns}
use sc4051_distributed_banki.Base.Text.{codes, decimal}
use sc4051_distributed_banki.Memory.{Bytes}
use sc4051_distributed_banki.Protocol.{CallbackMessage}
use sc4051_distributed_banki.Protocol.Service
use sc4051_distributed_banki.Protocol.Currency
use sc4051_distributed_banki.Client.State.{
  Client, Services, Output, print, print_box_top, print_box_bottom, reset, cyan, Received, datagram,
  lost,
}
use sc4051_distributed_banki.Client.Send.{is_callback, failed_to}
use sc4051_distributed_banki.Client.Pipeline.{is_timeout, show_callback, listen_round}

module _ (s : Services) where
  -- The callbacks that are going to arrive are decoded, with a message or an error.
  abbrev pub AreDecoded : List Received → Type 0
  AreDecoded [] = Unit
  AreDecoded (lost e ∷ q) = AreDecoded q
  AreDecoded (datagram raw ∷ q) =
      (is_callback raw ≡ true → Returns (s.decode_callback raw)) × AreDecoded q

  -- What the client prints of a callback, the last line first.
  abbrev pub box_of : CallbackMessage → List Output
  box_of msg =
      let line : Bytes → Bytes → Output = λ name value. print (name ++ value ++ codes "\n") reset in
      print_box_bottom
      ∷ line (codes "New Balance      : ") (s.double_to_string msg.monetary_value)
      ∷ line (codes "Currency         : ") (Currency.to_string msg.currency)
      ∷ line (codes "Account Holder   : ") msg.account_owner_name
      ∷ line (codes "Account Number   : ") (decimal msg.account_number)
      ∷ line (codes "Service          : ") (Service.to_string msg.service)
      ∷ print (codes "[ MONITOR CALLBACK UPDATE ]\n") cyan
      ∷ print_box_top
      ∷ []

  abbrev pub shown_callback : Result CallbackMessage → List Output
  shown_callback (ok msg) = box_of msg
  shown_callback (fail e) = failed_to (codes "listen to server") e ∷ []
  shown_callback crash = []
  shown_callback unfinished = []

  -- What is seen of one answer of the socket: a time-out and a reply to a request are passed over.
  abbrev pub shown : Received → List Output
  shown (lost e) = if is_timeout e then [] else failed_to (codes "listen to server") e ∷ []
  shown (datagram raw) = if is_callback raw then shown_callback (s.decode_callback raw) else []

  -- What is seen of several, the last first.
  abbrev pub seen : List Received → List Output
  seen [] = []
  seen (r ∷ q) = seen q ++ shown r

  pub seen_step :
      (m : ℕ) (q : List Received)
      → seen (take (suc m) q) ≡ seen (take m (drop 1 q)) ++ seen (take 1 q)
  seen_step zero [] = refl
  seen_step (suc m) [] = refl
  seen_step zero (r ∷ q) = refl
  seen_step (suc m) (r ∷ q) = refl

  pub drop_step : (m : ℕ) (q : List Received) → drop m (drop 1 q) ≡ drop (suc m) q
  drop_step zero [] = refl
  drop_step (suc m) [] = refl
  drop_step m (r ∷ q) = refl

  -- A round ends: it takes one answer and shows it.
  pub record Listened (c : Client) (r : Result (Unit {0})) (c' : Client) : Type 0 where
    pub returned : r ≡ ok tt
    pub still_decoded : AreDecoded c'.incoming
    pub same_clock : c'.clock ≡ c.clock
    pub same_readings : c'.readings ≡ c.readings
    pub nothing_sent : c'.sent ≡ c.sent
    pub same_request_id : c'.current_request_id ≡ c.current_request_id
    pub taken : c'.incoming ≡ drop 1 c.incoming
    pub seen_now : c'.screen ≡ seen (take 1 c.incoming) ++ c.screen

  abbrev Kept : Client → Result (Unit {0}) × Client → Type 0
  Kept c (r, c') = Listened c r c'

  -- A round that only prints.
  kept :
      (c : Client) (q : List Received) (screen : List Output)
      → AreDecoded q
      → q ≡ drop 1 c.incoming
      → screen ≡ seen (take 1 c.incoming) ++ c.screen
      → Kept c (ok tt, record c { incoming = q; screen = screen })
  kept c q screen h taken showed = record {
    returned = refl;
    still_decoded = h;
    same_clock = refl;
    same_readings = refl;
    nothing_sent = refl;
    same_request_id = refl;
    taken = taken;
    seen_now = showed;
  }

  -- The round behind `receive_message`, when a callback that decodes to d was taken off the queue.
  callback_shown :
      (d : Result CallbackMessage) (c : Client) (raw : Bytes) (q : List Received)
      → Returns d
      → AreDecoded q
      → is_callback raw ≡ true
      → s.decode_callback raw ≡ d
      → Kept
          (record c { incoming = datagram raw ∷ q })
          (show_callback s d (record c { incoming = q }))
  callback_shown (ok msg) c raw q r h pushed e =
      kept (record c { incoming = datagram raw ∷ q }) q _ h refl (rw (pushed, e) refl)
  callback_shown (fail err) c raw q r h pushed e =
      kept (record c { incoming = datagram raw ∷ q }) q _ h refl (rw (pushed, e) refl)
  callback_shown crash c raw q r h pushed e = elim r [ ]
  callback_shown unfinished c raw q r h pushed e = elim r [ ]

  -- The round behind `receive_message`, when q was going to arrive.
  pub queue_shown :
      (q : List Received) (c : Client)
      → 0 < length q
      → AreDecoded q
      → Kept (record c { incoming = q }) (listen_round s (record c { incoming = q }))
  queue_shown [] c some_left h = absurd (omega arith)
  queue_shown (lost e ∷ q) c some_left h =
      let before : Client = record c { incoming = lost e ∷ q } in
      elim (Bool-cases (is_timeout e)) [
        | inl waiting ↦ rw waiting (kept before q c.screen h refl (rw waiting refl))
        | inr failed ↦ rw failed (kept before q _ h refl (rw failed refl))
      ]
  queue_shown (datagram raw ∷ q) c some_left h = elim (Bool-cases (is_callback raw)) [
    | inl pushed ↦
        rw pushed (callback_shown (s.decode_callback raw) c raw q (h.0 pushed) h.1 pushed refl)
    | inr other ↦
        rw other
          (kept (record c { incoming = datagram raw ∷ q }) q c.screen h.1 refl (rw other refl))
  ]
