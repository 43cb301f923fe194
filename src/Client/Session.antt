-- ===== src/Client/Session.antt =====
-- `BankClient::run`, the main loop.
pub mod Rounds
pub mod Ends
use sc4051_distributed_banki.Base.{ℕ, zero, suc, Bool, true, false, if◌then◌else◌}
use sc4051_distributed_banki.Base.Outcome.{
  InternalError, Result, ok, fail, crash, unfinished, user_canceled,
}
use sc4051_distributed_banki.Base.Text.{codes}
use sc4051_distributed_banki.Errors
use sc4051_distributed_banki.Protocol.{Command}
use sc4051_distributed_banki.Client.State.{
  Io, Services, print, print_error, print_service_menu, wait_for_enter, clear_ui, cyan, ◌>>=◌, ◌>>◌,
  pure, lift, say,
}
use sc4051_distributed_banki.Client.Commands.{build_command}
use sc4051_distributed_banki.Client.Pipeline.{
  is_monitor, execute_client_req, monitor_server_updates,
}

-- What a round of the loop comes to.
pub data Next : Type 0 where
  go_on stop : Next

abbrev pub is_canceled : InternalError → Bool
is_canceled user_canceled = true
is_canceled _ = false

-- `fuel` is that of the listener.
module _ (s : Services) (fuel : ℕ) where
  abbrev pub perform : Command → Io (Unit {0})
  perform req =
      let monitored = monitor_server_updates s fuel req in
      let executed = execute_client_req s req in
      if is_monitor req.service then monitored else executed

  abbrev pub serve : Command → Io Next
  serve req = do
    say (print (codes "[ SENDING REQUEST TO SERVER ]\n") cyan)
    perform req
    wait_for_enter
    pure go_on

  abbrev pub after_command : Result Command → Io Next
  after_command (ok req) = serve req
  after_command (fail e) =
      if is_canceled e then pure go_on else (say (print_error (Errors.to_string e)) >> pure stop)
  after_command crash = lift crash
  after_command unfinished = lift unfinished

  unfoldable pub round : Io Next
  round = do
    say clear_ui
    say print_service_menu
    λ c. let (req, c') = build_command s c in after_command req c'

  -- `while (true)`, with fuel for the rounds.
  unfoldable pub run : ℕ → Io (Unit {0})
  run zero c = (unfinished, c)
  run (suc rounds) c = (round >>= elim [ stop ↦ pure tt | go_on ↦ run rounds ]) c
