-- ===== src/Client/Send/Octets.antt =====
-- What arrives in bytes is returned in bytes.
use sc4051_distributed_banki.Base.{
  ℕ, zero, suc, ◌+◌, ◌*◌, Option, none, some, List, [], ◌∷◌, All, length, ltb, Bool-cases,
  Option-cases, inl, inr,
}
use sc4051_distributed_banki.Base.Outcome.{InternalError, Result, ok, fail, crash, unfinished}
use sc4051_distributed_banki.Memory.{Bytes, AreBytes}
use sc4051_distributed_banki.Client.State.{Client, Io, Output, Received, datagram, lost}
use sc4051_distributed_banki.Client.Send.{
  is_callback, first_reply, Attempt, replied, unsent, unanswered, still_waiting, answer, attempt,
  conclude, after_failure, send_loop, send_to_server,
}

-- A datagram is made of bytes.
abbrev pub IsOctets : Received → Type 0
IsOctets (datagram raw) = AreBytes raw
IsOctets (lost e) = Unit

abbrev IsKnownOctets : Option Received → Type 0
IsKnownOctets none = Unit
IsKnownOctets (some r) = IsOctets r

first_reply-IsOctets :
    (q : List Received)
    → All IsOctets q
    → IsKnownOctets (first_reply q).0 × All IsOctets (first_reply q).1
first_reply-IsOctets [] h = (tt, tt)
first_reply-IsOctets (lost e ∷ q) h = (tt, h.1)
first_reply-IsOctets (datagram raw ∷ q) h = elim (Bool-cases (is_callback raw)) [
  | inl pushed ↦ rw pushed (first_reply-IsOctets q h.1)
  | inr other ↦ rw other (h.0, h.1)
]

abbrev AttemptOctets : Attempt → Type 0
AttemptOctets (replied raw) = AreBytes raw
AttemptOctets (unsent e) = Unit
AttemptOctets (unanswered e) = Unit
AttemptOctets still_waiting = Unit

answer-IsOctets : (r : Option Received) → IsKnownOctets r → AttemptOctets (answer r)
answer-IsOctets none h = tt
answer-IsOctets (some (datagram raw)) h = h
answer-IsOctets (some (lost e)) h = tt

attempt-IsOctets :
    (bytes : Bytes) (c : Client)
    → All IsOctets c.incoming
    → AttemptOctets (attempt bytes c).0 × All IsOctets (attempt bytes c).1.incoming
unfolding attempt
attempt-IsOctets bytes c h = elim (Option-cases (c.send_result (length c.sent))) [
  | inl sent_it ↦
      let (first, rest) = first_reply-IsOctets c.incoming h in
      rw sent_it (answer-IsOctets (first_reply c.incoming).0 first, rest)
  | inr (e, failed) ↦ rw failed (tt, h)
]

-- What a call of `send_to_server` returns is made of bytes.
abbrev pub Reply : Result Bytes → Type 0
Reply (ok raw) = AreBytes raw
Reply (fail e) = Unit
Reply crash = Unit
Reply unfinished = Unit

module _ (next : Io Bytes) (h : (c : Client) → All IsOctets c.incoming → Reply (next c).0) where
  failed-Reply :
      (i b : ℕ) (final : Output) (e : InternalError) (c : Client)
      → All IsOctets c.incoming
      → Reply (after_failure i b final e next c).0
  failed-Reply i b final e c octets = elim (Bool-cases (ltb i 5)) [
    | inl more ↦ rw more (h (record c { screen = _; slept = b ∷ c.slept }) octets)
    | inr last ↦ rw last tt
  ]

  conclude-Reply :
      (i b : ℕ) (res : Attempt) (c : Client)
      → AttemptOctets res
      → All IsOctets c.incoming
      → Reply (conclude i b next res c).0
  conclude-Reply i b (replied raw) c octets rest = octets
  conclude-Reply i b (unsent e) c octets rest = failed-Reply i b _ e c rest
  conclude-Reply i b (unanswered e) c octets rest = failed-Reply i b _ e c rest
  conclude-Reply i b still_waiting c octets rest = tt

send_loop-Reply :
    (left i b : ℕ) (bytes : Bytes) (c : Client)
    → All IsOctets c.incoming
    → Reply (send_loop left i b bytes c).0
unfolding send_loop
send_loop-Reply zero i b bytes c h = tt
send_loop-Reply (suc left) i b bytes c h =
    let (octets, rest) = attempt-IsOctets bytes c h in
    conclude-Reply (send_loop left (i + 1) (b * 2) bytes)
      (λ c' h'. send_loop-Reply left (i + 1) (b * 2) bytes c' h') i b (attempt bytes c).0
      (attempt bytes c).1 octets rest

pub send_to_server-Reply :
    (bytes : Bytes) (c : Client) → All IsOctets c.incoming → Reply (send_to_server bytes c).0
unfolding send_to_server
send_to_server-Reply bytes c h = send_loop-Reply 5 1 2 bytes c h
