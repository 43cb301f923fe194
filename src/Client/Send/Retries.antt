-- ===== src/Client/Send/Retries.antt =====
-- `send_to_server`: how often it sends, how long it waits, and with what it ends.
use sc4051_distributed_banki.Base.{
  ℕ, zero, suc, ◌+◌, ◌*◌, ◌<◌, ◌≤◌, ◌≡◌, refl, sym, ap, ◌∙◌, none, false, List, [], ◌∷◌, ◌++◌,
  length, arith, append_assoc, lt→ltb, ltb-false,
}
use sc4051_distributed_banki.Base.Outcome.{InternalError, Result, ok, fail, crash, unfinished}
use sc4051_distributed_banki.Memory.{Bytes}
use sc4051_distributed_banki.Client.State.{Client, Io, Output, Received, datagram}
use sc4051_distributed_banki.Client.Send.{
  is_callback, Attempt, replied, unsent, unanswered, still_waiting, attempt, after_failure,
  conclude, send_loop, send_to_server,
}
use sc4051_distributed_banki.Client.Send.Replies.{
  answers, Tried, attempt-Tried, IsAnswer, attempt-IsAnswer, AreCallbacks, arriving,
  first_reply-arriving,
}

abbrev pub copies : ℕ → Bytes → List Bytes
copies zero bytes = []
copies (suc k) bytes = bytes ∷ copies k bytes

-- k pauses, the last first: each twice as long as the one before it.
abbrev pub pauses : ℕ → ℕ → List ℕ
pauses b zero = []
pauses b (suc k) = pauses (b * 2) k ++ b ∷ []

-- How the loop ends when it was allowed `left` tries and made k, and n answers were no callbacks. It goes
-- on only where these were fewer than its tries.
abbrev pub Ends : ℕ → ℕ → ℕ → Result Bytes → Type 0
Ends left n k (ok raw) = is_callback raw ≡ false
Ends left n k (fail e) = k ≡ left
Ends left n k crash = ⊥
Ends left n k unfinished = n < k

-- The exchange paused k times and made one try more, of the `left` that it was allowed; every try sent
-- the same datagram.
pub record Exchanged (bytes : Bytes) (b left k : ℕ) (r : Result Bytes) (c c' : Client)
    : Type 0 where
  pub not_more : k < left
  pub sent_copies : c'.sent ≡ copies (suc k) bytes ++ c.sent
  pub slept_between : c'.slept ≡ pauses b k ++ c.slept
  pub same_request_id : c'.current_request_id ≡ c.current_request_id
  pub same_input : c'.input ≡ c.input
  pub ends : Ends left (answers c.incoming) (suc k) r

copies-append :
    (k : ℕ) (bytes : Bytes) (bs : List Bytes)
    → copies k bytes ++ (bytes ∷ bs) ≡ copies (suc k) bytes ++ bs
copies-append zero bytes bs = refl
copies-append (suc k) bytes bs = ap (λ (t : List Bytes). bytes ∷ t) (copies-append k bytes bs)

pauses-append : (b k : ℕ) (s : List ℕ) → pauses (b * 2) k ++ (b ∷ s) ≡ pauses b (suc k) ++ s
pauses-append b k s = sym (append_assoc (pauses (b * 2) k) (b ∷ []) s)

abbrev Outcome : Bytes → ℕ → ℕ → Client → Result Bytes × Client → Type 0
Outcome bytes b left c (r, c') = (k : ℕ) × Exchanged bytes b left k r c c'

Ends-later :
    (left n m k : ℕ) (r : Result Bytes) → m ≤ suc n → Ends left n k r → Ends (suc left) m (suc k) r
Ends-later left n m k (ok raw) one h = h
Ends-later left n m k (fail e) one h = ap suc h
Ends-later left n m k crash one h = h
Ends-later left n m k unfinished one h = omega arith

module _ (bytes : Bytes) (b i : ℕ) (c c' : Client) (tried : Tried bytes c c')
    (next : Io Bytes) where
  -- A failed try that is not the last one.
  retried :
      (left : ℕ) (final : Output) (e : InternalError)
      → i < 5
      → ((c2 : Client) → Outcome bytes (b * 2) left c2 (next c2))
      → Outcome bytes b (suc left) c (after_failure i b final e next c')
  retried left final e more ih = rw (lt→ltb i 5 more) (
      let (k, x) = ih (record c' { screen = _; slept = b ∷ c'.slept }) in
      (
        suc k,
        record {
          not_more = omega (arith, x.not_more);
          sent_copies =
              x.sent_copies
              ∙ ap (λ (t : List Bytes). copies (suc k) bytes ++ t) tried.sent_once
              ∙ copies-append (suc k) bytes c.sent;
          slept_between =
              x.slept_between
              ∙ ap (λ (t : List ℕ). pauses (b * 2) k ++ b ∷ t) tried.not_slept
              ∙ pauses-append b k c.slept;
          same_request_id = x.same_request_id ∙ tried.same_request_id;
          same_input = x.same_input ∙ tried.same_input;
          ends =
              Ends-later left (answers c'.incoming) (answers c.incoming) (suc k) _ tried.one_answer
                x.ends;
        },
      ))

  -- The last one.
  gave_up :
      (final : Output) (e : InternalError)
      → i ≡ 5
      → Outcome bytes b 1 c (after_failure i b final e next c')
  gave_up final e last = rw (ltb-false i 5 (omega arith)) (
    0,
    record {
      not_more = omega arith;
      sent_copies = tried.sent_once;
      slept_between = tried.not_slept;
      same_request_id = tried.same_request_id;
      same_input = tried.same_input;
      ends = refl;
    },
  )

  failed :
      (left : ℕ) (final : Output) (e : InternalError)
      → suc left + i ≡ 6
      → (0 < left → (c2 : Client) → Outcome bytes (b * 2) left c2 (next c2))
      → Outcome bytes b (suc left) c (after_failure i b final e next c')
  failed zero final e count ih = gave_up final e (omega arith)
  failed (suc left) final e count ih = retried (suc left) final e (omega arith) (ih (omega arith))

  concluded :
      (left : ℕ) (res : Attempt)
      → IsAnswer (answers c.incoming) res
      → suc left + i ≡ 6
      → (0 < left → (c2 : Client) → Outcome bytes (b * 2) left c2 (next c2))
      → Outcome bytes b (suc left) c (conclude i b next res c')
  concluded left (replied raw) answered count ih = (
    0,
    record {
      not_more = omega arith;
      sent_copies = tried.sent_once;
      slept_between = tried.not_slept;
      same_request_id = tried.same_request_id;
      same_input = tried.same_input;
      ends = answered;
    },
  )
  concluded left (unsent e) answered count ih = failed left _ e count ih
  concluded left (unanswered e) answered count ih = failed left _ e count ih
  concluded left still_waiting answered count ih = (
    0,
    record {
      not_more = omega arith;
      sent_copies = tried.sent_once;
      slept_between = tried.not_slept;
      same_request_id = tried.same_request_id;
      same_input = tried.same_input;
      ends = omega (arith, answered);
    },
  )

send_loop_exchange :
    (left i b : ℕ) (bytes : Bytes)
    → left + i ≡ 6
    → 0 < left
    → (c : Client) → Outcome bytes b left c (send_loop left i b bytes c)
unfolding send_loop
send_loop_exchange zero i b bytes count more c = elim more [ ]
send_loop_exchange (suc left) i b bytes count more c =
    concluded bytes b i c (attempt bytes c).1 (attempt-Tried bytes c) _ left (attempt bytes c).0
      (attempt-IsAnswer bytes c) count
      (λ (some_left : 0 < left).
        send_loop_exchange left (i + 1) (b * 2) bytes (omega arith) some_left)

-- Whatever `send_message` and `receive_message` return, `send_to_server` makes k pauses and k + 1 tries,
-- five tries at most: it handed the one datagram to `send_message` k + 1 times and no other, waited 2
-- seconds first and then twice as long each time, and left the request id alone. It returns a datagram
-- that is no callback, or it fails after the fifth try, or it is still passing over callbacks, and then
-- `receive_message` returned fewer answers other than callbacks, errors among them, than there were
-- tries: with five such answers it ends.
pub send_to_server-Exchanged :
    (bytes : Bytes) (c : Client)
    → (k : ℕ) × Exchanged bytes 2 5 k (send_to_server bytes c).0 c (send_to_server bytes c).1
unfolding send_to_server
send_to_server-Exchanged bytes c = send_loop_exchange 5 1 2 bytes (omega arith) (omega arith) c

-- When the first datagram can be sent and a reply arrives behind any number of callbacks, the callbacks
-- are dropped and `send_to_server` returns the reply, after one datagram and without a pause; what
-- arrives behind the reply stays.
pub send_to_server_replied :
    (bytes raw : Bytes) (callbacks : List Bytes) (rest : List Received) (c : Client)
    → c.send_result (length c.sent) ≡ none
    → c.incoming ≡ arriving callbacks (datagram raw ∷ rest)
    → AreCallbacks callbacks
    → is_callback raw ≡ false
    → let (r, c') = send_to_server bytes c in
      (r ≡ ok raw) × (c'.sent ≡ bytes ∷ c.sent) × (c'.slept ≡ c.slept) × (c'.incoming ≡ rest)
unfolding send_to_server send_loop attempt
send_to_server_replied bytes raw callbacks rest c sent_it queue h reply =
    rw (sent_it, queue, first_reply-arriving callbacks (datagram raw ∷ rest) h, reply)
      (refl, refl, refl, refl)

-- When the first datagram can be sent and all that `receive_message` returns are callbacks, however many,
-- `send_to_server` passes over them and has not returned: it has sent the datagram once and retries
-- nothing.
pub send_to_server_flooded :
    (bytes : Bytes) (callbacks : List Bytes) (c : Client)
    → c.send_result (length c.sent) ≡ none
    → c.incoming ≡ arriving callbacks []
    → AreCallbacks callbacks
    → let (r, c') = send_to_server bytes c in
      (r ≡ unfinished) × (c'.sent ≡ bytes ∷ c.sent) × (c'.slept ≡ c.slept) × (c'.incoming ≡ [])
unfolding send_to_server send_loop attempt
send_to_server_flooded bytes callbacks c sent_it queue h =
    rw (sent_it, queue, first_reply-arriving callbacks [] h) (refl, refl, refl, refl)
