-- ===== src/Main/Exits.antt =====
-- The exit codes of the client's process, and what they say.
use sc4051_distributed_banki.Base.{
  ℕ, ◌<◌, ◌≡◌, ◌≢◌, refl, ap, sym, ◌∙◌, ◌⊎◌, inl, inr, true, List, [], ◌∷◌, length, arith,
}
use sc4051_distributed_banki.Base.Outcome.{Result, ok, fail, crash, unfinished}
use sc4051_distributed_banki.Base.Integers.{ℤ}
use sc4051_distributed_banki.Memory.{Bytes, Platform}
use sc4051_distributed_banki.Protocol.{Command}
use sc4051_distributed_banki.Invocation.{get_invocation_flag}
use sc4051_distributed_banki.Socket.{Ran, done, threw}
use sc4051_distributed_banki.Socket.Life.{System, Life, udp_socket}
use sc4051_distributed_banki.Socket.Closed.{left_open, Made, udp_socket-Made, destroy-Released}
use sc4051_distributed_banki.Socket.Works.{is_done, all_work, udp_socket_returns}
use sc4051_distributed_banki.Client.State.{
  Client, Services, Parsed, value, invalid_argument, out_of_range,
}
use sc4051_distributed_banki.Client.Input.Asked.{ReturnsDoubles}
use sc4051_distributed_banki.Client.Session.{perform}
use sc4051_distributed_banki.Client.Session.Ends.{Performs, EndsAs, run_ends}
use sc4051_distributed_banki.Main.{
  stoi, to_uint16, World, bank_client, Exit, exited, terminated, undefined, running, Process, early,
  exit_of, with_socket, with_flag, with_port, main,
}

module _ (p : Platform) (system : System) (s : Services) (fuel rounds : ℕ) (world : World) where
  -- The process leaves no descriptor open.
  abbrev Closes : Process → Type 0
  Closes process = left_open process.calls ≡ []

  socket-Closes :
      (flag : ℕ) (made : Ran (Unit {0})) (o : Life)
      → Made (made, o)
      → Closes (with_socket p system s fuel rounds world flag (made, o))
  socket-Closes flag (done u) o (fd, holds) = (destroy-Released fd o holds).none_open
  socket-Closes flag (threw what) o released = released.none_open

  flag-Closes :
      (ip : Bytes) (port : ℕ) (flag : Result ℕ)
      → Closes (with_flag p system s fuel rounds world ip port flag)
  flag-Closes ip port (ok flag) =
      let (made, o) = udp_socket p system ip port true in
      socket-Closes flag made o (udp_socket-Made p system ip port true)
  flag-Closes ip port (fail e) = refl
  flag-Closes ip port crash = refl
  flag-Closes ip port unfinished = refl

  port-Closes :
      (ip : Bytes) (port : Parsed ℤ) (flag : Result ℕ)
      → Closes (with_port p system s fuel rounds world ip port flag)
  port-Closes ip (value n) flag = flag-Closes ip (to_uint16 n) flag
  port-Closes ip invalid_argument flag = refl
  port-Closes ip out_of_range flag = refl

  main-Closes :
      (program : Bytes) (args : List Bytes)
      → Closes (main p system s fuel rounds world program args)
  unfolding main
  main-Closes program [] = refl
  main-Closes program (ip ∷ []) = refl
  main-Closes program (ip ∷ port ∷ args) =
      port-Closes ip (stoi port) (get_invocation_flag (program ∷ ip ∷ port ∷ args))

-- A process that sent a datagram or ended well.
abbrev Went : Process → Type 0
Went process = (process.exit ≡ exited 0) ⊎ (process.sent ≢ [])

abbrev code_of : Exit → ℕ
code_of (exited n) = n
code_of terminated = 2
code_of undefined = 2
code_of running = 2

early_exit : (exit : Exit) → code_of exit ≢ 0 → Went (early exit []) → ⊥
early_exit exit bad (inl zero_exit) = bad (ap code_of zero_exit)
early_exit exit bad (inr some_sent) = some_sent refl

module _ (p : Platform) (system : System) (s : Services) (fuel rounds : ℕ) (world : World) where
  socket-Went :
      (flag : ℕ) (made : Ran (Unit {0})) (o : Life)
      → Went (with_socket p system s fuel rounds world flag (made, o))
      → is_done made ≡ true
  socket-Went flag (done u) o went = refl
  socket-Went flag (threw what) o (inl zero_exit) = absurd (omega (arith, ap code_of zero_exit))
  socket-Went flag (threw what) o (inr some_sent) = absurd (some_sent refl)

  flag-Went :
      (ip : Bytes) (port : ℕ) (flag : Result ℕ)
      → Went (with_flag p system s fuel rounds world ip port flag)
      → (f : ℕ) × (flag ≡ ok f) × (all_work system ip ≡ true)
  flag-Went ip port (ok flag) went =
      let (made, o) = udp_socket p system ip port true in
      (flag, refl, sym (udp_socket_returns p system ip port) ∙ socket-Went flag made o went)
  flag-Went ip port (fail e) went = absurd (early_exit (exited 1) (omega arith) went)
  flag-Went ip port crash went = absurd (early_exit undefined (omega arith) went)
  flag-Went ip port unfinished went = absurd (early_exit running (omega arith) went)

  -- The command line was in order, and every system call of the socket worked.
  abbrev pub Passed : Bytes → List Bytes → Type 0
  Passed program args =
      (ip : Bytes) × (port : Bytes) × (rest : List Bytes) × (n : ℤ) × (flag : ℕ) × (args
        ≡ ip ∷ port ∷ rest)
      × (stoi port ≡ value n)
      × (get_invocation_flag (program ∷ args) ≡ ok flag)
      × (all_work system ip ≡ true)

  port-Went :
      (ip : Bytes) (port : Parsed ℤ) (flag : Result ℕ)
      → Went (with_port p system s fuel rounds world ip port flag)
      → (n : ℤ) × (f : ℕ) × (port ≡ value n) × (flag ≡ ok f) × (all_work system ip ≡ true)
  port-Went ip (value n) flag went =
      let (f, known, works) = flag-Went ip (to_uint16 n) flag went in (n, f, refl, known, works)
  port-Went ip invalid_argument flag went = absurd (early_exit terminated (omega arith) went)
  port-Went ip out_of_range flag went = absurd (early_exit terminated (omega arith) went)

-- A process that exits with 0, or that sent a datagram, had an address, a port that `std::stoi` reads
-- and a flag on its command line, and every system call of its socket's constructor worked.
pub main-Passed :
    (p : Platform) (system : System) (s : Services) (fuel rounds : ℕ) (world : World)
    (program : Bytes) (args : List Bytes)
    → let process = main p system s fuel rounds world program args in
      (process.exit ≡ exited 0) ⊎ (process.sent ≢ [])
      → Passed p system s fuel rounds world program args
unfolding main
main-Passed p system s fuel rounds world program [] went =
    absurd (early_exit (exited 1) (omega arith) went)
main-Passed p system s fuel rounds world program (ip ∷ []) went =
    absurd (early_exit (exited 1) (omega arith) went)
main-Passed p system s fuel rounds world program (ip ∷ port ∷ args) went =
    let (n, flag, number, known, works) =
      port-Went p system s fuel rounds world ip (stoi port)
        (get_invocation_flag (program ∷ ip ∷ port ∷ args)) went in
    (ip, port, args, n, flag, refl, number, known, works)

-- Whatever the system calls and the user do, a process that returns an exit code has closed every
-- descriptor that it opened.
pub main_closes :
    (p : Platform) (system : System) (s : Services) (fuel rounds : ℕ) (world : World)
    (program : Bytes) (args : List Bytes) (n : ℕ)
    → let process = main p system s fuel rounds world program args in
      process.exit ≡ exited n → left_open process.calls ≡ []
main_closes p system s fuel rounds world program args n ends =
    main-Closes p system s fuel rounds world program args

module _ (p : Platform) (system : System) (s : Services) (fuel rounds : ℕ) (world : World) where
  -- An exit with 0; or a run of the loop from c made a call of `perform` that did not return.
  abbrev pub Ended : Client → Exit → Type 0
  Ended c exit =
      (exit ≡ exited 0)
      ⊎ ((req : Command) × (c' : Client) × Performs s fuel c req c'
          × (((perform s fuel req c').0 ≡ crash) ⊎ ((perform s fuel req c').0 ≡ unfinished)))

  exit_of-Ended : (c : Client) (r : Result (Unit {0})) → EndsAs s fuel c r → Ended c (exit_of r)
  exit_of-Ended c (ok u) h = inl refl
  exit_of-Ended c (fail e) h = elim h [ ]
  exit_of-Ended c crash (req, c', there, e) = inr (req, c', there, inl e)
  exit_of-Ended c unfinished (req, c', there, e) = inr (req, c', there, inr e)

  bank_client_enough :
      (flag : ℕ) (local : ℕ × ℕ)
      → length world.input < rounds
      → length (bank_client world flag local).input < rounds
  unfolding bank_client
  bank_client_enough flag local enough = enough

  socket-Ended :
      (flag : ℕ) (made : Ran (Unit {0})) (o : Life)
      → ReturnsDoubles s
      → length world.input < rounds
      → is_done made ≡ true
      → Ended
          (bank_client world flag o.local_ip_port)
          (with_socket p system s fuel rounds world flag (made, o)).exit
  socket-Ended flag (done u) o doubles enough works =
      exit_of-Ended (bank_client world flag o.local_ip_port) _ (
        (run_ends s fuel rounds rounds (bank_client world flag o.local_ip_port) doubles
          (bank_client_enough flag o.local_ip_port enough)
          (bank_client_enough flag o.local_ip_port enough)).0)
  socket-Ended flag (threw what) o doubles enough works = absurd cc

-- With an address that `inet_pton` accepts, a port that `std::stoi` reads and a flag on the command line,
-- when the system calls of the socket's constructor work and the loop has more rounds than the
-- terminal has bytes, the process exits with 0; or a call of `execute_client_req` or
-- `monitor_server_updates` that its loop makes did not return.
pub main_ends :
    (p : Platform) (system : System) (s : Services) (fuel rounds : ℕ) (world : World)
    (program ip port : Bytes) (args : List Bytes) (n : ℤ) (flag : ℕ)
    → ReturnsDoubles s
    → length world.input < rounds
    → stoi port ≡ value n
    → get_invocation_flag (program ∷ ip ∷ port ∷ args) ≡ ok flag
    → all_work system ip ≡ true
    → let (made, o) = udp_socket p system ip (to_uint16 n) true in
      Ended p system s fuel rounds world
        (bank_client world flag o.local_ip_port)
        (main p system s fuel rounds world program (ip ∷ port ∷ args)).exit
unfolding main
main_ends p system s fuel rounds world program ip port args n flag doubles enough number known
      works =
    let (made, o) = udp_socket p system ip (to_uint16 n) true in
    rw (number, known)
      (socket-Ended p system s fuel rounds world flag made o doubles enough
        (udp_socket_returns p system ip (to_uint16 n) ∙ works))
