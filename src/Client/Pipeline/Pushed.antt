-- ===== src/Client/Pipeline/Pushed.antt =====
-- The listener of the client with the program's own codecs, on callbacks that its own codec encoded.
use sc4051_distributed_banki.Base.{
  ℕ, ◌+◌, ◌-◌, ◌*◌, ◌^◌, ◌≤◌, ◌<◌, ◌≡◌, refl, ap, sym, ◌∙◌, true, List, [], ◌∷◌, ◌++◌, length,
  take_all, drop_all, append-nil, arith,
}
use mathlib.Core.Path.{subst}
use native.Mathlib.Decide.{dec_lt}
use sc4051_distributed_banki.Base.Outcome.{ok, receive_timeout, same_value}
use sc4051_distributed_banki.Memory.{Bytes, Platform}
use sc4051_distributed_banki.Protocol.{CallbackMessage, callback_type}
use sc4051_distributed_banki.CallbackEncoder.{encode_message, decode_message}
use sc4051_distributed_banki.CallbackEncoder.RoundTrip.{
  IsCallback, callback_wire, callback_round_trip,
}
use sc4051_distributed_banki.Client.State.{
  Client, Services, Output, Parsed, Received, datagram, lost,
}
use sc4051_distributed_banki.Client.Send.{is_callback}
use sc4051_distributed_banki.Client.Pipeline.{listen_server}
use sc4051_distributed_banki.Client.Pipeline.Seen.{AreDecoded, box_of, seen}
use sc4051_distributed_banki.Client.Pipeline.Listen.{listen_server-Ends}
use sc4051_distributed_banki.Client.Pipeline.Understood.{program}

-- What the socket answers when a peer with the client's codec pushes the callbacks, with time-outs in
-- between.
pub data Arrives (peer : Platform) : List CallbackMessage → List Received → Type 0 where
  all_arrived : Arrives peer [] []
  waits :
      (cbs : List CallbackMessage) (q : List Received)
      → Arrives peer cbs q
      → Arrives peer cbs (lost receive_timeout ∷ q)
  arrives :
      (cb : CallbackMessage) (raw : Bytes) (cbs : List CallbackMessage) (q : List Received)
      → cb.type ≡ callback_type
      → IsCallback cb
      → encode_message peer cb ≡ ok raw
      → Arrives peer cbs q
      → Arrives peer (cb ∷ cbs) (datagram raw ∷ q)

-- The boxes of the callbacks, the last first.
abbrev pub boxes : Services → List CallbackMessage → List Output
boxes s [] = []
boxes s (cb ∷ cbs) = boxes s cbs ++ box_of s cb

module _ (peer client : Platform) (stod : Bytes → Parsed ℕ) (double_to_string : ℕ → Bytes)
    (same : peer.endian ≡ client.endian) where
  abbrev s : Services
  s = program client stod double_to_string

  decoded :
      (cb : CallbackMessage) (raw : Bytes)
      → IsCallback cb
      → encode_message peer cb ≡ ok raw
      → decode_message client raw ≡ ok cb
  decoded cb raw v e =
      ap (λ (t : Bytes). decode_message client t) (sym (append-nil raw))
      ∙ (rw e at (callback_round_trip peer client cb [] same v tt))

  pushed :
      (cb : CallbackMessage) (raw : Bytes)
      → cb.type ≡ callback_type
      → IsCallback cb
      → encode_message peer cb ≡ ok raw
      → is_callback raw ≡ true
  pushed cb raw t v e =
      subst (λ (r : Bytes). is_callback r ≡ true) (same_value _ _ raw (callback_wire peer cb v) e)
        (rw t refl)

  arrives-AreDecoded :
      (cbs : List CallbackMessage) (q : List Received) → Arrives peer cbs q → AreDecoded s q
  arrives-AreDecoded _ _ all_arrived = tt
  arrives-AreDecoded _ _ (waits cbs q h) = arrives-AreDecoded cbs q h
  arrives-AreDecoded _ _ (arrives cb raw cbs q t v e h) =
      ((λ is_pushed. rw (decoded cb raw v e) tt), arrives-AreDecoded cbs q h)

  arrives-seen :
      (cbs : List CallbackMessage) (q : List Received) → Arrives peer cbs q → seen s q ≡ boxes s cbs
  arrives-seen _ _ all_arrived = refl
  arrives-seen _ _ (waits cbs q h) = append-nil (seen s q) ∙ arrives-seen cbs q h
  arrives-seen _ _ (arrives cb raw cbs q t v e h) =
      rw (pushed cb raw t v e, decoded cb raw v e)
        (ap (λ (o : List Output). o ++ box_of s cb) (arrives-seen cbs q h))

-- A peer that writes callbacks with this repository's C++ codec, on a host of the client's byte order,
-- pushes them, and time-outs may lie in between. When the clock has not yet passed the asked time at the
-- readings that the listener makes for these, and passes it at the next one, and there is fuel for them,
-- then the listener ends without an error, has taken them all, and has printed the box of each callback
-- that was encoded, the currency byte named by the client's numbers, in order, and nothing else.
pub callbacks_shown :
    (peer client : Platform) (stod : Bytes → Parsed ℕ) (double_to_string : ℕ → Bytes)
    (fuel time : ℕ) (cbs : List CallbackMessage) (c : Client)
    → peer.endian ≡ client.endian
    → Arrives peer cbs c.incoming
    → length c.incoming < fuel
    → ((i : ℕ)
        → i < length c.incoming
        → c.clock (c.readings + 1 + i) - c.clock c.readings < time * 10 ^ 9)
    → time * 10 ^ 9 ≤ c.clock (c.readings + 1 + length c.incoming) - c.clock c.readings
    → let s = program client stod double_to_string in
      let (r, c') = listen_server s fuel time c in
      (r ≡ ok tt) × (c'.incoming ≡ []) × (c'.screen ≡ boxes s cbs ++ c.screen)
callbacks_shown peer client stod double_to_string fuel time cbs c same pushes enough in_time
      passes =
    let s = program client stod double_to_string in
    let x =
      listen_server-Ends s fuel (length c.incoming) time c
        (arrives-AreDecoded peer client stod double_to_string same cbs c.incoming pushes)
        (omega arith) enough passes in
    let all_taken : length c.incoming ≤ x.rounds = elim (dec_lt x.rounds (length c.incoming)) [
      | yes left ↦ elim (too_early _ _ (in_time x.rounds left) x.passed) [ ]
      | no none_left ↦ omega arith
    ] in
    (
      x.returned,
      x.taken ∙ drop_all x.rounds c.incoming all_taken,
      x.all_seen
          ∙ ap (λ (q : List Received). seen s q ++ c.screen)
              (take_all x.rounds c.incoming all_taken)
          ∙ ap (λ (o : List Output). o ++ c.screen)
              (arrives-seen peer client stod double_to_string same cbs c.incoming pushes),
    )
  where
    too_early : (a b : ℕ) → a < b → b ≤ a → ⊥
    too_early a b h k = omega arith
