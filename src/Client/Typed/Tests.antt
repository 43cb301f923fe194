-- ===== src/Client/Typed/Tests.antt =====
-- What a user types, at concrete inputs.
use sc4051_distributed_banki.Base.{ℕ, suc, ◌<◌, ◌≡◌, refl, none, some, [], ◌∷◌, ◌++◌, arith}
use sc4051_distributed_banki.Base.Outcome.{receive_timeout, ok}
use sc4051_distributed_banki.Base.Text.{codes, decimal}
use sc4051_distributed_banki.Memory.{Bytes, little}
use sc4051_distributed_banki.Memory.Hosts.{x86}
use sc4051_distributed_banki.Protocol.{Command}
use sc4051_distributed_banki.Serializer
use sc4051_distributed_banki.CmdEncoder.Decode
use sc4051_distributed_banki.CmdEncoder.Wire.{wire}
use sc4051_distributed_banki.Terminal.Input.{newline}
use sc4051_distributed_banki.Client.State.{Client, Services, value, datagram, lost}
use sc4051_distributed_banki.Client.Text.{is_alpha, is_alpha_numeric, is_within_max_length}
use sc4051_distributed_banki.Client.Commands.{build_command}
use sc4051_distributed_banki.Client.Send.{build_message, prepare_message}
use sc4051_distributed_banki.Client.Pipeline.Understood.{program}
use sc4051_distributed_banki.Client.Typed.{line_of}
use sc4051_distributed_banki.Client.Typed.Account.{IsAccount, account_lines, account_command, asked}
use sc4051_distributed_banki.Client.Typed.Requests.{Lines, to_transfer}
use sc4051_distributed_banki.Client.Text.Lines.{IsAnswer}
use sc4051_distributed_banki.Client.Input.Asked.{ReturnsDoubles}
use sc4051_distributed_banki.Client.Send.Retries.{copies}
use sc4051_distributed_banki.Client.Session.{run}
use sc4051_distributed_banki.Client.Typed.Session.{quit_line}
use sc4051_distributed_banki.Client.Typed.Served.{typed_session}
use sc4051_distributed_banki.Client.Typed.Understood.{typed_request_understood}

abbrev typist : Bytes → Client
typist input = record {
  flag = 2;
  current_request_id = 0;
  local_ip = 0x7f000001;
  local_port = 5000;
  input = input;
  screen = [];
  send_result = λ n. none;
  sent = [];
  incoming = [];
  slept = [];
  clock = λ n. n;
  readings = 0;
}

-- A std::stod that reads 12.5 on every line.
abbrev twelve_and_a_half : ℕ
twelve_and_a_half = 0x4029000000000000

abbrev services : Services
services = program x86 (λ input. value twelve_and_a_half) (λ v. [])

doubles : ReturnsDoubles services
doubles input v h = let e : twelve_and_a_half ≡ v = cc in omega (arith, e)

abbrev name : Bytes
name = codes "Ann"

abbrev password : Bytes
password = codes "pw1"

account : IsAccount name 1000 password
unfolding is_alpha is_alpha_numeric is_within_max_length
account = record {
  is_name = refl;
  name_no_quit = refl;
  fits = omega arith;
  is_password = refl;
  password_no_quit = refl;
}

-- A transfer of 12.5 to the account 2000 of Bob.
abbrev transfer_lines : Bytes
transfer_lines =
    ((account_lines name 1000 password ++ (line_of (codes "Bob") ++ line_of (decimal 2000)))
      ++ line_of (codes "usd"))
    ++ line_of (codes "12.5")

abbrev transfer : Command
transfer = record (account_command (asked 7) name 1000 password) {
  tx_account_owner_name = some (codes "Bob");
  tx_account_number = some 2000;
  currency = some 1;
  monetary_value = some twelve_and_a_half;
}

usd_line : IsAnswer (codes "usd")
usd_line = record {
  dark = ((refl, refl), ((refl, refl), ((refl, refl), tt)));
  some_text = (refl, (refl, (refl, tt)));
  no_quit = refl;
}

value_line : IsAnswer (codes "12.5")
value_line = record {
  dark = ((refl, refl), ((refl, refl), ((refl, refl), ((refl, refl), tt))));
  some_text = (refl, (refl, (refl, (refl, tt))));
  no_quit = refl;
}

typed_transfer : Lines services 7 transfer_lines transfer
unfolding is_alpha
typed_transfer =
    to_transfer name 1000 password (codes "Bob") 2000 (codes "usd") (codes "12.5") 1
      twelve_and_a_half account (refl, refl) (omega arith) (usd_line, refl) (value_line, refl)

typed_request_understood_example :
    let (r, c') =
      build_command services (typist ((decimal 7 ++ newline ∷ transfer_lines) ++ codes "\n")) in
    (r ≡ ok transfer)
    × (c'.input ≡ codes "\n")
    × (request : Bytes) × ((prepare_message services transfer c').0 ≡ ok request)
    × (Serializer.deserialize x86 request ≡ ok (build_message (wire little transfer) c').0)
    × (Decode.decode_message x86 (wire little transfer) ≡ ok transfer)
typed_request_understood_example =
    typed_request_understood x86 x86 (λ input. value twelve_and_a_half) (λ v. []) 7 transfer_lines
      transfer (codes "\n") (typist ((decimal 7 ++ newline ∷ transfer_lines) ++ codes "\n")) refl
      doubles
      (record {
        flag_range = omega arith;
        request_id_range = omega arith;
        local_ip_range = omega arith;
        local_port_range = omega arith;
      })
      typed_transfer (omega arith) (omega arith) refl

-- A callback is in front, a reply without a header behind it, and then nothing arrives.
abbrev session : Client
session =
    record (typist ((decimal 7 ++ newline ∷ transfer_lines) ++ newline ∷ newline ∷ quit_line)) {
      incoming =
          datagram (2 ∷ 0 ∷ [])
          ∷ datagram (1 ∷ [])
          ∷ lost receive_timeout
          ∷ lost receive_timeout
          ∷ lost receive_timeout
          ∷ lost receive_timeout
          ∷ [];
    }

typed_session_example :
    let (r, c') = run services 3 2 session in
    (r ≡ ok tt)
    × (request : Bytes) × (k : ℕ) × (k < 5)
    × (c'.sent ≡ copies (suc k) request ++ [])
    × (Serializer.deserialize x86 request ≡ ok (build_message (wire little transfer) session).0)
    × (Decode.decode_message x86 (wire little transfer) ≡ ok transfer)
typed_session_example =
    typed_session x86 x86 (λ input. value twelve_and_a_half) (λ v. []) 3 0 7 transfer_lines transfer
      session refl doubles
      (record {
        flag_range = omega arith;
        request_id_range = omega arith;
        local_ip_range = omega arith;
        local_port_range = omega arith;
      })
      typed_transfer refl (omega arith) (omega arith)
      (omega arith, (omega arith, (tt, (tt, (tt, (tt, tt)))))) (omega arith) refl
