-- ===== src/Client/Send.antt =====
-- The requests of `BankClient`: `build_message`, `prepare_message` and `send_to_server`.
pub mod Replies
pub mod Retries
pub mod RequestIds
pub mod Octets
use sc4051_distributed_banki.Base.{
  ℕ, zero, suc, ◌+◌, ◌*◌, ◌%◌, ◌^◌, Option, none, some, Bool, true, false, List, [], ◌∷◌, ◌++◌, ltb,
  ◌==◌, if◌then◌else◌, length,
}
use sc4051_distributed_banki.Base.Outcome.{InternalError, ok, fail, crash, unfinished}
use sc4051_distributed_banki.Base.Text.{codes, decimal}
use sc4051_distributed_banki.Errors
use sc4051_distributed_banki.Memory.{Bytes}
use sc4051_distributed_banki.Protocol.{Command, Message, request_type, callback_type}
use sc4051_distributed_banki.Client.State.{
  Client, Io, Services, Output, print, print_error, cyan, yellow, Received, datagram, lost, ◌>>=◌,
  ◌>>◌, pure, raise, lift, say, or_say,
}

abbrev pub max_tries : ℕ
max_tries = 5

abbrev pub backoff : ℕ
backoff = 2

-- Semantics::InvocationFlag of client/include/utils/semantics.h
abbrev pub at_least_once : ℕ
at_least_once = 1

abbrev pub at_most_once : ℕ
at_most_once = 2

unfoldable pub build_message : Bytes → Client → Message × Client
build_message bytes c =
    let next = (c.current_request_id + 1) % 2 ^ 32 in
    let counted = c.flag == at_most_once in
    let c' : Client = if counted then record c { current_request_id = next } else c in
    let request_id = if counted then next else 0 in
    (
      record {
        type = request_type;
        flag = c.flag;
        id = record { request_id = request_id; ipv4_address = c.local_ip; port = c.local_port };
        payload = record { status_code = 0; content = bytes };
      },
      c',
    )

-- "[Client] Failed to ...: " + Error::to_string(error)
abbrev pub failed_to : Bytes → InternalError → Output
failed_to what e =
    print_error (codes "[Client] Failed to " ++ what ++ codes ": " ++ Errors.to_string e)

unfoldable pub prepare_message : Services → Command → Io Bytes
prepare_message s cmd = do
  res_enc ← or_say (s.encode_command cmd) (failed_to (codes "encode command"))
  msg ← λ c. let (m, c') = build_message res_enc c in (ok m, c')
  or_say (s.serialize msg) (failed_to (codes "serialize message"))

-- `socket->send_message(data)`, `none` when it succeeds.
abbrev pub send_message : Bytes → Client → Option InternalError × Client
send_message bytes c = (c.send_result (length c.sent), record c { sent = bytes ∷ c.sent })

-- `socket->receive_message()`: none where its answer is not known.
abbrev pub receive_message : Client → Option Received × Client
receive_message c = elim c.incoming [
  | [] ↦ (none, c)
  | r ∷ rest ↦ (some r, record c { incoming = rest })
]

-- `!raw.empty() && raw[0] == static_cast<uint8_t>(MessageType::Callback)`
abbrev pub is_callback : Bytes → Bool
is_callback [] = false
is_callback (b ∷ bs) = b == callback_type

-- `while (true)` with a call of `receive_message` in each round: what the loop ends with, and the answers
-- behind that. None when all the answers are callbacks: the loop goes on then.
abbrev pub first_reply : List Received → Option Received × List Received
first_reply [] = (none, [])
first_reply (lost e ∷ rest) = (some (lost e), rest)
first_reply (datagram raw ∷ rest) =
    let again = first_reply rest in if is_callback raw then again else (some (datagram raw), rest)

abbrev pub receive_reply : Client → Option Received × Client
receive_reply c = let (r, rest) = first_reply c.incoming in (r, record c { incoming = rest })

-- One try of the loop: what `res_send` and `res_recv` hold after it.
pub data Attempt : Type 0 where
  replied : Bytes → Attempt
  unsent : InternalError → Attempt
  unanswered : InternalError → Attempt
  -- The loop that waits for a reply goes on behind the known answers.
  still_waiting : Attempt

abbrev pub answer : Option Received → Attempt
answer none = still_waiting
answer (some (datagram raw)) = replied raw
answer (some (lost e)) = unanswered e

unfoldable pub attempt : Bytes → Client → Attempt × Client
attempt bytes c =
    let (res_send, c1) = send_message bytes c in
    elim res_send [
      | some e ↦ (unsent e, c1)
      | none ↦ let (res_recv, c2) = receive_reply c1 in (answer res_recv, c2)
    ]

abbrev pub final_failure : Bytes → InternalError → Output
final_failure what e = print_error (
    codes "Final "
    ++ what
    ++ codes " failure after "
    ++ decimal max_tries
    ++ codes " attempts: "
    ++ Errors.to_string e)

-- `std::this_thread::sleep_for(std::chrono::seconds(cur_backoff));`
abbrev pub sleep_for : ℕ → Io (Unit {0})
sleep_for seconds c = (ok tt, record c { slept = seconds ∷ c.slept })

-- "[!] Attempt " + std::to_string(i) + " failed. Retrying in " + ...
abbrev pub retry_notice : ℕ → ℕ → Output
retry_notice i cur_backoff =
    print
      (codes "[!] Attempt "
        ++ decimal i
        ++ codes " failed. Retrying in "
        ++ decimal cur_backoff
        ++ codes "s...\n")
      yellow

-- What follows a failed try: a pause before the next one, or the error that is returned.
abbrev pub after_failure : ℕ → ℕ → Output → InternalError → Io Bytes → Io Bytes
after_failure i cur_backoff final e next =
    if ltb i max_tries
    then (say (retry_notice i cur_backoff) >> sleep_for cur_backoff >> next)
    else (say final >> raise e)

-- What the loop does with its i-th try.
abbrev pub conclude : ℕ → ℕ → Io Bytes → Attempt → Io Bytes
conclude i cur_backoff next (replied raw) =
    say (print (codes "[SUCCESS: Message sent and received from server]\n") cyan) >> pure raw
conclude i cur_backoff next (unsent e) =
    after_failure i cur_backoff (final_failure (codes "send") e) e next
conclude i cur_backoff next (unanswered e) =
    after_failure i cur_backoff (final_failure (codes "receive") e) e next
conclude i cur_backoff next still_waiting = lift unfinished

-- The loop from its i-th try on, with `left` tries left; behind the last one the code returns `err`,
-- which it has not initialised if no try was made.
unfoldable pub send_loop : ℕ → ℕ → ℕ → Bytes → Io Bytes
send_loop zero i cur_backoff bytes c = (crash, c)
send_loop (suc left) i cur_backoff bytes c =
    let (res, c') = attempt bytes c in
    let next = send_loop left (i + 1) (cur_backoff * 2) bytes in conclude i cur_backoff next res c'

unfoldable pub send_to_server : Bytes → Io Bytes
unfolding send_loop
send_to_server bytes = send_loop max_tries 1 backoff bytes
