-- ===== src/Main/Tests.antt =====
-- Processes at concrete command lines.
use sc4051_distributed_banki.Base.{◌≡◌, refl, none, some, true, false, [], ◌∷◌, inl, List, arith}
use sc4051_distributed_banki.Base.Outcome.{ok}
use sc4051_distributed_banki.Base.Text.{codes}
use sc4051_distributed_banki.Base.Integers.{pos}
use sc4051_distributed_banki.Memory.{Bytes}
use sc4051_distributed_banki.Memory.Hosts.{x86}
use sc4051_distributed_banki.Invocation.{get_invocation_flag, first_flag}
use sc4051_distributed_banki.Socket.{returned, failed, get_local_info}
use sc4051_distributed_banki.Socket.Life.{
  System, opened, closed, set_reuse_address, set_send_timeout, udp_socket, base_socket, destroy,
  connect_socket,
}
use sc4051_distributed_banki.Socket.Closed.{Made, udp_socket-Made, left_open}
use sc4051_distributed_banki.Socket.Works.{is_done, all_work, udp_socket_returns}
use sc4051_distributed_banki.Terminal.Input
use sc4051_distributed_banki.Client.Session.{run, round}
use sc4051_distributed_banki.Client.Commands.{build_command}
use sc4051_distributed_banki.Client.State.{
  read_int, Services, value, out_of_range, invalid_argument,
}
use sc4051_distributed_banki.Client.Number.{stoll}
use sc4051_distributed_banki.Client.Pipeline.Understood.{program}
use sc4051_distributed_banki.Main.{World, exited, stoi, to_uint16, bank_client, usage, main}
use sc4051_distributed_banki.Main.Exits.{Passed, Ended, main-Passed, main_closes, main_ends}

-- Every call works; the kernel gives the descriptor 3 and the address 127.0.0.1:5000.
abbrev system : System
system = record {
  inet_pton = λ ip. some 0x0100007f;
  socket = returned 3;
  set_reuse_address = returned tt;
  connect = returned tt;
  getsockname = returned (record { sin_addr = 0x0100007f; sin_port = 0x8813 });
  set_send_timeout = returned tt;
  set_receive_timeout = returned tt;
}

-- The timeout for sending cannot be set.
abbrev no_timeout : System
no_timeout = record system { set_send_timeout = failed 22 }

abbrev services : Services
services = program x86 (λ input. invalid_argument) (λ v. [])

-- A user who leaves at once.
abbrev world : World
world = record { input = codes "0\n"; send_result = λ n. none; incoming = []; clock = λ n. n }

abbrev name : Bytes
name = codes "client"

abbrev arguments : List Bytes
arguments = codes "127.0.0.1" ∷ codes "5000" ∷ codes "-m" ∷ []

port_read : stoi (codes "5000") ≡ value (pos 5000)
unfolding stoi stoll
port_read = refl

-- A port above 65535 wraps around, and so does a negative one.
ports_wrap :
    (stoi (codes "70000") ≡ value (pos 70000))
    × (to_uint16 (pos 70000) ≡ 4464)
    × (stoi (codes "3000000000") ≡ out_of_range)
unfolding stoi stoll
ports_wrap = (refl, refl, refl)

flag_read : get_invocation_flag (name ∷ arguments) ≡ ok 2
unfolding get_invocation_flag first_flag
flag_read = refl

no_arguments : main x86 system services 3 3 world name [] ≡ usage name
unfolding main
no_arguments = refl

-- The exception closes the descriptor behind the calls that were made.
unwound_calls :
    (udp_socket x86 no_timeout (codes "127.0.0.1") 5000 false).1.calls
    ≡ closed 3 ∷ set_send_timeout ∷ set_reuse_address ∷ opened 3 ∷ []
unfolding udp_socket base_socket destroy
unwound_calls = refl

udp_socket-Made_example : Made (udp_socket x86 no_timeout (codes "127.0.0.1") 5000 true)
udp_socket-Made_example = udp_socket-Made x86 no_timeout (codes "127.0.0.1") 5000 true

udp_socket_returns_example :
    is_done (udp_socket x86 system (codes "127.0.0.1") 5000 true).0
    ≡ all_work system (codes "127.0.0.1")
udp_socket_returns_example = udp_socket_returns x86 system (codes "127.0.0.1") 5000

exit_zero : (main x86 system services 3 3 world name arguments).exit ≡ exited 0
unfolding main stoi stoll get_invocation_flag first_flag udp_socket base_socket connect_socket
    get_local_info destroy bank_client run round build_command read_int Input.read_int
exit_zero = refl

main-Passed_example : Passed x86 system services 3 3 world name arguments
main-Passed_example = main-Passed x86 system services 3 3 world name arguments (inl exit_zero)

main_closes_example : left_open (main x86 system services 3 3 world name arguments).calls ≡ []
main_closes_example = main_closes x86 system services 3 3 world name arguments 0 exit_zero

main_ends_example :
    let (made, o) = udp_socket x86 system (codes "127.0.0.1") 5000 true in
    Ended x86 system services 3 3 world
      (bank_client world 2 o.local_ip_port)
      (main x86 system services 3 3 world name arguments).exit
main_ends_example =
    main_ends x86 system services 3 3 world name (codes "127.0.0.1") (codes "5000")
      (codes "-m" ∷ []) (pos 5000) 2 (λ input v h. cc) (omega arith) port_read flag_read refl
