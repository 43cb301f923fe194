-- ===== src/Client/Pipeline/Tests.antt =====
-- The listener for callbacks on a concrete push.
use sc4051_distributed_banki.Base.{ℕ, ◌+◌, ◌-◌, ◌*◌, ◌^◌, ◌<◌, ◌≡◌, refl, none, [], ◌∷◌, arith}
use sc4051_distributed_banki.Base.Outcome.{ok, receive_timeout}
use sc4051_distributed_banki.Base.Text.{codes}
use sc4051_distributed_banki.Memory.{little}
use sc4051_distributed_banki.Memory.Hosts.{x86}
use sc4051_distributed_banki.Protocol.{CallbackMessage, callback_type}
use sc4051_distributed_banki.CallbackEncoder.RoundTrip.{IsCallback, wire, callback_wire}
use sc4051_distributed_banki.Client.State.{Client, Services, invalid_argument, datagram, lost}
use sc4051_distributed_banki.Client.Pipeline.{listen_server}
use sc4051_distributed_banki.Client.Pipeline.Seen.{box_of}
use sc4051_distributed_banki.Client.Pipeline.Pushed.{
  Arrives, all_arrived, waits, arrives, callbacks_shown,
}
use sc4051_distributed_banki.Client.Pipeline.Understood.{program}

-- Bob has 100.0 in his account behind a deposit.
abbrev deposited : CallbackMessage
deposited = record {
  type = callback_type;
  service = 3;
  account_number = 1001;
  account_owner_name_len = 3;
  account_owner_name = codes "Bob";
  currency = 1;
  monetary_value = 0x4059000000000000;
}

deposited-IsCallback : IsCallback deposited
deposited-IsCallback = record {
  type_range = omega arith;
  service_range = omega arith;
  account_number_range = omega arith;
  name_len = refl;
  name_size = omega arith;
  name_bytes = omega arith;
  currency_range = omega arith;
  monetary_value_range = omega arith;
}

abbrev services : Services
services = program x86 (λ input. invalid_argument) (λ v. codes "100.000000")

-- A client that monitors for three seconds, to which one time-out and one callback come, with a clock that
-- moves on by a second at each reading.
abbrev monitor : Client
monitor = record {
  flag = 1;
  current_request_id = 1;
  local_ip = 0x7f000001;
  local_port = 5000;
  input = [];
  screen = [];
  send_result = λ n. none;
  sent = [];
  incoming = lost receive_timeout ∷ datagram (wire little deposited) ∷ [];
  slept = [];
  clock = λ n. 1000000000 * n;
  readings = 0;
}

pushed : Arrives x86 (deposited ∷ []) monitor.incoming
pushed = waits _ _ (
    arrives deposited _ _ _ refl deposited-IsCallback
      (callback_wire x86 deposited deposited-IsCallback) all_arrived)

in_time : (i : ℕ) → i < 2 → 1000000000 * (0 + 1 + i) - 1000000000 * 0 < 3 * 10 ^ 9
in_time i h = omega arith

callbacks_shown_example :
    let (r, c') = listen_server services 6 3 monitor in
    (r ≡ ok tt) × (c'.incoming ≡ []) × (c'.screen ≡ box_of services deposited)
callbacks_shown_example =
    callbacks_shown x86 x86 (λ input. invalid_argument) (λ v. codes "100.000000") 6 3
      (deposited ∷ []) monitor refl pushed (omega arith) in_time (omega arith)
