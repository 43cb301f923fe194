-- ===== src/Client/Typed/Session.antt =====
-- A whole session: a request that is typed, and the way out.
use sc4051_distributed_banki.Base.{
  ℕ, suc, ◌+◌, ◌%◌, ◌^◌, if◌then◌else◌, ◌<◌, ◌≡◌, refl, ap, ◌∙◌, false, some, List, ◌∷◌, ◌++◌, ◌==◌,
}
use mathlib.Core.Path.{sym}
use sc4051_distributed_banki.Base.Outcome.{Result, ok, fail, crash, unfinished, Returns}
use sc4051_distributed_banki.Base.Text.{codes}
use sc4051_distributed_banki.Memory.{Bytes}
use sc4051_distributed_banki.Protocol.{Command}
use sc4051_distributed_banki.Terminal.Input
use sc4051_distributed_banki.Terminal.Input.{newline}
use sc4051_distributed_banki.Client.State.{
  Client, Services, print, cyan, read_int, print_service_menu, clear_ui,
}
use sc4051_distributed_banki.Protocol.{Message, request_type}
use sc4051_distributed_banki.Client.Input.Quiet.{identity_of}
use sc4051_distributed_banki.Client.Send.{build_message, at_most_once}
use sc4051_distributed_banki.Client.Send.Retries.{copies}
use sc4051_distributed_banki.Client.Pipeline.Exchange.{
  execute_request_pipeline_sends, execute_request_pipeline_input,
}
use sc4051_distributed_banki.Client.Pipeline.Unsent.{on_success-Unsent, decode_command-Unsent}
use sc4051_distributed_banki.Client.Pipeline.{execute_request_pipeline, decode_command}
use sc4051_distributed_banki.Client.Typed.Requests.{
  Lines, to_open, about_account, to_change, to_monitor, to_transfer,
}
use sc4051_distributed_banki.Client.Commands.{build_command}
use sc4051_distributed_banki.Client.Pipeline.{is_monitor, execute_client_req}
use sc4051_distributed_banki.Client.Pipeline.Void.{NoError}
use sc4051_distributed_banki.Client.Session.{stop, go_on, perform, round, run}

abbrev pub quit_line : Bytes
quit_line = codes "0\n"

module _ (s : Services) (fuel : ℕ) where
  -- The user leaves.
  quit_round :
      (c : Client)
      → c.input ≡ quit_line
      → ((round s fuel c).0 ≡ ok stop) × ((round s fuel c).1.sent ≡ c.sent)
  unfolding round build_command read_int Input.read_int
  quit_round c e = rw e (refl, refl)

  -- What is left of a round behind a request that was performed and answered with two newlines.
  pub performed_round :
      (c c2 : Client) (cmd : Command) (rest : Bytes)
      → build_command s (record c { screen = print_service_menu ∷ clear_ui ∷ c.screen })
        ≡ (ok cmd, c2)
      → let sending : Client = record c2 {
        screen = print (codes "[ SENDING REQUEST TO SERVER ]\n") cyan ∷ c2.screen;
      } in
        let (r, c3) = perform s fuel cmd sending in
        r ≡ ok tt
        → c3.input ≡ newline ∷ newline ∷ rest
        → ((round s fuel c).0 ≡ ok go_on)
          × ((round s fuel c).1.input ≡ rest)
          × ((round s fuel c).1.sent ≡ c3.sent)
  unfolding round Input.wait_for_enter
  performed_round c c2 cmd rest built returns left = rw (built, returns, left) (refl, refl, refl)

  -- Two rounds: the first goes on, the user leaves in the second.
  pub two_rounds :
      (rounds : ℕ) (c : Client)
      → (round s fuel c).0 ≡ ok go_on
      → (round s fuel c).1.input ≡ quit_line
      → let (r, c') = run s fuel (suc (suc rounds)) c in
        (r ≡ ok tt) × (c'.sent ≡ (round s fuel c).1.sent)
  unfolding run
  two_rounds rounds c on left =
      let (stops, silent) = quit_round (round s fuel c).1 left in rw (on, stops) (refl, silent)

pub ok_only : (r : Result (Unit {0})) → Returns r → NoError r → r ≡ ok tt
ok_only (ok u) h k = refl
ok_only (fail e) h k = absurd k
ok_only crash h k = absurd h
ok_only unfinished h k = absurd h

-- A request that is no MONITOR sends copies of its one datagram, and reads nothing from the terminal.
pub request_sends :
    (s : Services) (cmd : Command) (c : Client) (content request : Bytes)
    → is_monitor cmd.service ≡ false
    → s.encode_command cmd ≡ ok content
    → s.serialize (build_message content c).0 ≡ ok request
    → let c' = (execute_client_req s cmd c).1 in
      (k : ℕ) × (k < 5) × (c'.sent ≡ copies (suc k) request ++ c.sent) × (c'.input ≡ c.input)
unfolding execute_client_req
request_sends s cmd c content request other encoded written =
    let (r, c1) = execute_request_pipeline s cmd c in
    let (k, few, sends, counted) =
      execute_request_pipeline_sends s cmd c content request encoded written in
    let unread = execute_request_pipeline_input s cmd c content request encoded written in
    let silent = on_success-Unsent s r (decode_command s) (decode_command-Unsent s) c1 in
    rw other (
      k,
      few,
      ap (λ (t : List Bytes × Bytes). t.0) silent ∙ sends,
      ap (λ (t : List Bytes × Bytes). t.1) silent ∙ unread,
    )

-- What `build_message` makes depends on the client's identity alone.
abbrev message_of : Bytes → ℕ × ℕ × ℕ × ℕ → Message
message_of bytes (id, flag, ip, port) = record {
  type = request_type;
  flag = flag;
  id = record {
    request_id = if flag == at_most_once then (id + 1) % 2 ^ 32 else 0;
    ipv4_address = ip;
    port = port;
  };
  payload = record { status_code = 0; content = bytes };
}

built_by_identity :
    (bytes : Bytes) (c : Client) → (build_message bytes c).0 ≡ message_of bytes (identity_of c)
unfolding build_message
built_by_identity bytes c = refl

pub same_built :
    (bytes : Bytes) (c c' : Client)
    → identity_of c' ≡ identity_of c
    → (build_message bytes c').0 ≡ (build_message bytes c).0
same_built bytes c c' e =
    built_by_identity bytes c' ∙ ap (message_of bytes) e ∙ sym (built_by_identity bytes c)

pub service_typed :
    (s : Services) (n : ℕ) (text : Bytes) (cmd : Command)
    → Lines s n text cmd
    → cmd.service ≡ some n
service_typed s _ _ _ (to_open name pwd cur_line val_line cur val hn hp hc hv) = refl
service_typed s _ _ _ (about_account n name num pwd which h) = refl
service_typed s _ _ _ (to_change n name num pwd cur_line val_line cur val which h hc hv) = refl
service_typed s _ _ _ (to_monitor name num pwd time h fits) = refl
service_typed s _ _ _
      (to_transfer name num pwd tx_name tx_num cur_line val_line cur val h ht fits hc hv) =
    refl

pub performs_request :
    (s : Services) (fuel : ℕ) (cmd : Command) (c : Client)
    → is_monitor cmd.service ≡ false
    → perform s fuel cmd c ≡ execute_client_req s cmd c
performs_request s fuel cmd c other = rw other refl
