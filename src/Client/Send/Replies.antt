-- ===== src/Client/Send/Replies.antt =====
-- The inner loop of `send_to_server`: which datagram it takes for the reply.
use sc4051_distributed_banki.Base.{
  ℕ, suc, ◌≤◌, Option, none, some, arith, ◌≡◌, refl, true, false, List, [], ◌∷◌, if◌then◌else◌,
  Bool-cases, Option-cases, inl, inr, length,
}
use sc4051_distributed_banki.Memory.{Bytes}
use sc4051_distributed_banki.Client.State.{Client, Received, datagram, lost}
use sc4051_distributed_banki.Client.Send.{
  is_callback, first_reply, receive_message, receive_reply, Attempt, replied, unsent, unanswered,
  still_waiting, answer, attempt,
}

-- One round of the loop, and the loop again where the datagram is a callback.
abbrev round : Option Received × Client → Option Received × Client
round (none, c) = (none, c)
round (some (datagram raw), c) =
    if is_callback raw then receive_reply c else (some (datagram raw), c)
round (some (lost e), c) = (some (lost e), c)

-- `receive_reply` is the loop that calls `receive_message` until it fails or returns no callback.
receive_reply-round : (c : Client) → receive_reply c ≡ round (receive_message c)
receive_reply-round c = by_queue c.incoming
  where
    by_queue :
        (q : List Received)
        → receive_reply (record c { incoming = q })
          ≡ round (receive_message (record c { incoming = q }))
    by_queue [] = refl
    by_queue (lost e ∷ rest) = refl
    by_queue (datagram raw ∷ rest) = elim (Bool-cases (is_callback raw)) [
      | inl yes_callback ↦ rw yes_callback refl
      | inr no_callback ↦ rw no_callback refl
    ]

-- How many of the answers are no callbacks.
abbrev pub answers : List Received → ℕ
answers [] = 0
answers (lost e ∷ q) = suc (answers q)
answers (datagram raw ∷ q) =
    let others = answers q in if is_callback raw then others else suc others

-- A datagram that the loop returns is no callback, and where it goes on, none of the n others is left.
abbrev pub IsReply : ℕ → Option Received → Type 0
IsReply n none = n ≡ 0
IsReply n (some (datagram raw)) = is_callback raw ≡ false
IsReply n (some (lost e)) = Unit

pub first_reply-IsReply : (q : List Received) → IsReply (answers q) (first_reply q).0
first_reply-IsReply [] = refl
first_reply-IsReply (lost e ∷ rest) = tt
first_reply-IsReply (datagram raw ∷ rest) = elim (Bool-cases (is_callback raw)) [
  | inl yes_callback ↦ rw yes_callback (first_reply-IsReply rest)
  | inr no_callback ↦ rw no_callback no_callback
]

-- The loop takes one of them.
first_reply-answers : (q : List Received) → answers q ≤ suc (answers (first_reply q).1)
first_reply-answers [] = omega arith
first_reply-answers (lost e ∷ rest) = omega arith
first_reply-answers (datagram raw ∷ rest) = elim (Bool-cases (is_callback raw)) [
  | inl yes_callback ↦ rw yes_callback (first_reply-answers rest)
  | inr no_callback ↦ rw no_callback (omega arith)
]

abbrev pub AreCallbacks : List Bytes → Type 0
AreCallbacks [] = Unit
AreCallbacks (raw ∷ raws) = (is_callback raw ≡ true) × AreCallbacks raws

abbrev pub arriving : List Bytes → List Received → List Received
arriving [] q = q
arriving (raw ∷ raws) q = datagram raw ∷ arriving raws q

-- The callbacks before the reply are dropped.
pub first_reply-arriving :
    (raws : List Bytes) (q : List Received)
    → AreCallbacks raws
    → first_reply (arriving raws q) ≡ first_reply q
first_reply-arriving [] q h = refl
first_reply-arriving (raw ∷ raws) q h = rw h.0 (first_reply-arriving raws q h.1)

-- A try sends the datagram once, and changes nothing else but what is still to arrive.
pub record Tried (bytes : Bytes) (c c' : Client) : Type 0 where
  pub sent_once : c'.sent ≡ bytes ∷ c.sent
  pub not_slept : c'.slept ≡ c.slept
  pub same_request_id : c'.current_request_id ≡ c.current_request_id
  pub same_input : c'.input ≡ c.input
  pub one_answer : answers c.incoming ≤ suc (answers c'.incoming)

pub attempt-Tried : (bytes : Bytes) (c : Client) → Tried bytes c (attempt bytes c).1
unfolding attempt
attempt-Tried bytes c = elim (Option-cases (c.send_result (length c.sent))) [
  | inl sent_it ↦ rw sent_it (record {
    sent_once = refl;
    not_slept = refl;
    same_request_id = refl;
    same_input = refl;
    one_answer = first_reply-answers c.incoming;
  })
  | inr (e, failed) ↦ rw failed (record {
    sent_once = refl;
    not_slept = refl;
    same_request_id = refl;
    same_input = refl;
    one_answer = omega arith;
  })
]

-- What a try takes for the reply is no callback, and one that goes on has none of n other answers left.
abbrev pub IsAnswer : ℕ → Attempt → Type 0
IsAnswer n (replied raw) = is_callback raw ≡ false
IsAnswer n (unsent e) = Unit
IsAnswer n (unanswered e) = Unit
IsAnswer n still_waiting = n ≡ 0

answer-IsAnswer : (n : ℕ) (r : Option Received) → IsReply n r → IsAnswer n (answer r)
answer-IsAnswer n none h = h
answer-IsAnswer n (some (datagram raw)) h = h
answer-IsAnswer n (some (lost e)) h = tt

pub attempt-IsAnswer :
    (bytes : Bytes) (c : Client) → IsAnswer (answers c.incoming) (attempt bytes c).0
unfolding attempt
attempt-IsAnswer bytes c = elim (Option-cases (c.send_result (length c.sent))) [
  | inl sent_it ↦ rw sent_it (answer-IsAnswer _ _ (first_reply-IsReply c.incoming))
  | inr (e, failed) ↦ rw failed tt
]
