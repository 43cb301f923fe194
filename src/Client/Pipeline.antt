-- ===== src/Client/Pipeline.antt =====
-- What `BankClient` does with a command: `execute_request_pipeline` and its parts, and the listener
-- for callbacks.
pub mod Exchange
pub mod Understood
pub mod Seen
pub mod Listen
pub mod Pushed
pub mod Unsent
pub mod Void
pub mod Answered
mod Tests
use sc4051_distributed_banki.Base.{
  ℕ, zero, suc, ◌+◌, ◌-◌, ◌*◌, ◌^◌, Option, none, some, Bool, true, false, List, [], ◌∷◌, ◌++◌, ltb,
  ◌==◌, if◌then◌else◌,
}
use sc4051_distributed_banki.Base.Outcome.{
  InternalError, Result, ok, fail, crash, unfinished, bad_status, receive_timeout, or_crash,
}
use sc4051_distributed_banki.Base.Text.{codes, decimal}
use sc4051_distributed_banki.Errors
use sc4051_distributed_banki.Memory.{Bytes}
use sc4051_distributed_banki.Protocol.{Command, Message, CallbackMessage}
use sc4051_distributed_banki.Protocol.Service
use sc4051_distributed_banki.Protocol.Currency
use sc4051_distributed_banki.Protocol.Status
use sc4051_distributed_banki.Client.State.{
  Client, Io, Services, Output, Colour, print, print_error, print_box_top, print_box_bottom, reset,
  cyan, green, red, Received, datagram, lost, ◌>>=◌, ◌>>◌, pure, raise, lift, say, or_say,
}
use sc4051_distributed_banki.Client.Send.{
  prepare_message, send_to_server, failed_to, is_callback, receive_message,
}

-- `bankIO->print(text)`, in the colour that the declaration defaults to.
abbrev pub print_plain : Bytes → Output
print_plain text = print text reset

abbrev pub skip : Io (Unit {0})
skip c = (ok tt, c)

-- `if (optional) ...`
abbrev pub when_some : {A : Type 0} → Option A → (A → Io (Unit {0})) → Io (Unit {0})
when_some none f = skip
when_some (some a) f = f a

-- `cmd.service == Protocol::Service::MONITOR`
abbrev pub is_monitor : Option ℕ → Bool
is_monitor none = false
is_monitor (some service) = service == Service.monitor

abbrev pub is_timeout : InternalError → Bool
is_timeout receive_timeout = true
is_timeout _ = false

-- `std::chrono::steady_clock::now()`
abbrev pub now : Client → ℕ × Client
now c = (c.clock c.readings, record c { readings = c.readings + 1 })

module _ (s : Services) where
  unfoldable pub decode_message : Bytes → Io Message
  decode_message bytes = or_say (s.deserialize bytes) (failed_to (codes "deserialize response"))

  -- What `decode_command` prints of a reply's content.
  abbrev pub print_reply : Command → Io (Unit {0})
  print_reply res_cmd =
      say print_box_top
      >> when_some res_cmd.account_number
          (λ n. say (print_plain (codes "Account Number   : " ++ decimal n ++ codes "\n")))
      >> when_some res_cmd.monetary_value (λ v.
        say (print_plain (codes "Balance          : " ++ s.double_to_string v ++ codes "\n")))
      >> say print_box_bottom

  abbrev pub show_content : Result Command → Io (Unit {0})
  show_content (ok res_cmd) = print_reply res_cmd
  show_content (fail e) = say (failed_to (codes "decode response content") e)
  show_content crash = lift crash
  show_content unfinished = lift unfinished

  unfoldable pub decode_command : Message → Io (Unit {0})
  decode_command msg = elim msg.payload.content [
    | [] ↦ skip
    | b ∷ bs ↦ show_content (s.decode_command (b ∷ bs))
  ]

  unfoldable pub decode_status_code : Message → Io (Unit {0})
  decode_status_code msg =
      let status = msg.payload.status_code in
      let success = status == Status.success in
      say (
        print (codes "[ SERVER RESPONSE STATUS : " ++ Status.to_string status ++ codes " ]")
          (if success then green else red))
      >> (if success then skip else raise bad_status)

  unfoldable pub execute_request_pipeline : Command → Io Message
  execute_request_pipeline cmd = do
    request ← prepare_message s cmd
    response ← send_to_server request
    msg ← decode_message response
    decode_status_code msg
    pure msg

  -- `auto res = execute_request_pipeline(cmd); if (!res) return;`
  abbrev pub on_success : Result Message → (Message → Io (Unit {0})) → Io (Unit {0})
  on_success (ok msg) f = f msg
  on_success (fail e) f = skip
  on_success crash f = lift crash
  on_success unfinished f = lift unfinished

  unfoldable pub execute_client_req : Command → Io (Unit {0})
  execute_client_req cmd c =
      let (res, c') = execute_request_pipeline cmd c in
      if is_monitor cmd.service then (ok tt, c) else on_success res decode_command c'

  -- What `listen_server` prints of a callback.
  abbrev pub print_callback : CallbackMessage → Io (Unit {0})
  print_callback msg =
      say print_box_top
      >> say (print (codes "[ MONITOR CALLBACK UPDATE ]\n") cyan)
      >> say
          (print_plain (codes "Service          : " ++ Service.to_string msg.service ++ codes "\n"))
      >> say (print_plain (codes "Account Number   : " ++ decimal msg.account_number ++ codes "\n"))
      >> say (print_plain (codes "Account Holder   : " ++ msg.account_owner_name ++ codes "\n"))
      >> say (
          print_plain
            (codes "Currency         : " ++ Currency.to_string msg.currency ++ codes "\n"))
      >> say (
          print_plain
            (codes "New Balance      : " ++ s.double_to_string msg.monetary_value ++ codes "\n"))
      >> say print_box_bottom

  abbrev pub show_callback : Result CallbackMessage → Io (Unit {0})
  show_callback (ok msg) = print_callback msg
  show_callback (fail e) = say (failed_to (codes "listen to server") e)
  show_callback crash = lift crash
  show_callback unfinished = lift unfinished

  -- One round of `listen_server` behind its `receive_message`.
  abbrev pub show_received : Received → Io (Unit {0})
  show_received (lost e) =
      if is_timeout e then skip else say (failed_to (codes "listen to server") e)
  show_received (datagram raw) =
      let shown = show_callback (s.decode_callback raw) in if is_callback raw then shown else skip

  abbrev pub show_next : Option Received → Io (Unit {0})
  show_next none = lift unfinished
  show_next (some r) = show_received r

  abbrev pub listen_round : Io (Unit {0})
  listen_round c = let (response, c') = receive_message c in show_next response c'

  -- The loop of `listen_server`, with fuel. The clock is steady: it never goes back.
  unfoldable pub listen_loop : ℕ → ℕ → ℕ → Io (Unit {0})
  listen_loop zero start time c = (unfinished, c)
  listen_loop (suc fuel) start time c =
      let (t, c') = now c in
      let more = (listen_round >> listen_loop fuel start time) c' in
      if ltb (t - start) (time * 10 ^ 9) then more else (ok tt, c')

  unfoldable pub listen_server : ℕ → ℕ → Io (Unit {0})
  unfolding listen_loop
  listen_server fuel time c = let (start, c') = now c in listen_loop fuel start time c'

  -- What `monitor_server_updates` does behind its `if (!res) return;`.
  abbrev pub start_listening : ℕ → Command → Message → Io (Unit {0})
  start_listening fuel cmd msg = do
    decode_command msg
    say (print (codes "[ Listening TO SERVER ]\n") cyan)
    time ← lift (or_crash cmd.monitor_timeout_seconds)
    listen_server fuel time

  unfoldable pub monitor_server_updates : ℕ → Command → Io (Unit {0})
  monitor_server_updates fuel cmd c =
      let (res, c') = execute_request_pipeline cmd c in
      let listened = on_success res (start_listening fuel cmd) c' in
      if is_monitor cmd.service then listened else (ok tt, c)
