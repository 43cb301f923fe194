-- ===== src/Main.antt =====
-- client/src/main.cpp on a POSIX host: the process from its command line to its exit code.
pub mod Exits
mod Tests
use sc4051_distributed_banki.Base.{
  ℕ, ◌-◌, ◌%◌, ◌^◌, Option, none, some, Bool, true, false, List, [], ◌∷◌, ◌++◌, ltb, if◌then◌else◌,
}
use sc4051_distributed_banki.Base.Outcome.{InternalError, Result, ok, fail, crash, unfinished}
use sc4051_distributed_banki.Base.Text.{codes}
use sc4051_distributed_banki.Base.Integers.{ℤ, pos, negsuc}
use sc4051_distributed_banki.Memory.{Bytes, Platform}
use sc4051_distributed_banki.Invocation.{get_invocation_flag}
use sc4051_distributed_banki.Socket.{Ran, done, threw}
use sc4051_distributed_banki.Socket.Life.{System, SystemCall, Life, udp_socket, destroy}
use sc4051_distributed_banki.Client.State.{
  Client, Services, Received, Parsed, value, invalid_argument, out_of_range,
}
use sc4051_distributed_banki.Client.Number.{stoll}
use sc4051_distributed_banki.Client.Session.{run}

abbrev pub to_int : Parsed ℤ → Parsed ℤ
to_int (value (pos n)) = if ltb n (2 ^ 31) then value (pos n) else out_of_range
to_int (value (negsuc n)) = if ltb n (2 ^ 31) then value (negsuc n) else out_of_range
to_int invalid_argument = invalid_argument
to_int out_of_range = out_of_range

-- `std::stoi` in base 10.
unfoldable pub stoi : Bytes → Parsed ℤ
stoi str = to_int (stoll str)

-- `static_cast<uint16_t>`
abbrev pub to_uint16 : ℤ → ℕ
to_uint16 (pos n) = n % 2 ^ 16
to_uint16 (negsuc n) = 2 ^ 16 - 1 - n % 2 ^ 16

-- What the world outside is going to answer the client.
pub record World : Type 0 where
  pub input : Bytes
  pub send_result : ℕ → Option InternalError
  pub incoming : List Received
  pub clock : ℕ → ℕ

-- `BankClient::BankClient`
unfoldable pub bank_client : World → ℕ → ℕ × ℕ → Client
bank_client world flag (ip, port) = record {
  flag = flag;
  current_request_id = 0;
  local_ip = ip;
  local_port = port;
  input = world.input;
  screen = [];
  send_result = world.send_result;
  sent = [];
  incoming = world.incoming;
  slept = [];
  clock = world.clock;
  readings = 0;
}

-- How the process ends: with an exit code, by an exception that nothing catches, or not at all, where
-- the code has undefined behaviour or the model's loops ran out of fuel.
pub data Exit : Type 0 where
  exited : ℕ → Exit
  terminated undefined running : Exit

-- The end of the process, what it wrote to std::cerr, its system calls on the socket, the last first,
-- and the datagrams that it sent.
pub record Process : Type 0 where
  pub exit : Exit
  pub errors : Bytes
  pub calls : List SystemCall
  pub sent : List Bytes

-- An end before the socket is made.
abbrev pub early : Exit → Bytes → Process
early exit errors = record { exit = exit; errors = errors; calls = []; sent = [] }

abbrev pub usage : Bytes → Process
usage program =
    early (exited 1) (codes "Usage: " ++ program ++ codes " <Server_IP> <Server_Port>\n")

-- What the loop comes to, which returns no value and no error.
abbrev pub exit_of : Result (Unit {0}) → Exit
exit_of (ok u) = exited 0
exit_of (fail e) = exited 0
exit_of crash = undefined
exit_of unfinished = running

module _ (p : Platform) (system : System) (s : Services) (fuel rounds : ℕ) (world : World) where
  -- The try block behind the socket's constructor; the socket goes with the client at its end.
  abbrev pub with_socket : ℕ → Ran (Unit {0}) × Life → Process
  with_socket flag (threw what, o) = record {
    exit = exited 1;
    errors = codes "CRITICAL ERROR: " ++ what ++ codes "\n";
    calls = o.calls;
    sent = [];
  }
  with_socket flag (done u, o) =
      let (r, c) = run s fuel rounds (bank_client world flag o.local_ip_port) in
      record { exit = exit_of r; errors = []; calls = (destroy o).calls; sent = c.sent }

  abbrev pub with_flag : Bytes → ℕ → Result ℕ → Process
  with_flag server_ip server_port (ok flag) =
      with_socket flag (udp_socket p system server_ip server_port true)
  with_flag server_ip server_port (fail e) =
      early (exited 1) (codes "Warning: Unknown flag. Only '-l' and '-m' \n")
  with_flag server_ip server_port crash = early undefined []
  with_flag server_ip server_port unfinished = early running []

  -- `std::stoi` stands outside the try block.
  abbrev pub with_port : Bytes → Parsed ℤ → Result ℕ → Process
  with_port server_ip (value n) flag = with_flag server_ip (to_uint16 n) flag
  with_port server_ip invalid_argument flag = early terminated []
  with_port server_ip out_of_range flag = early terminated []

  -- `main`, with the program's name and the arguments behind it.
  unfoldable pub main : Bytes → List Bytes → Process
  main program [] = usage program
  main program (_ ∷ []) = usage program
  main program (server_ip ∷ server_port ∷ args) =
      with_port server_ip (stoi server_port)
        (get_invocation_flag (program ∷ server_ip ∷ server_port ∷ args))
