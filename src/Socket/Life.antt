-- ===== src/Socket/Life.antt =====
-- client/src/networkUtils/baseSocket.cpp and the constructor, `connect_socket` and the destructor of
-- client/src/networkUtils/udpSocket.cpp on a POSIX host: the life of a socket.
use sc4051_distributed_banki.Base.{ℕ, Option, none, some, Bool, true, false, List, [], ◌∷◌}
use sc4051_distributed_banki.Base.Text.{codes}
use sc4051_distributed_banki.Memory.{Bytes, Platform}
use sc4051_distributed_banki.Socket.{
  Call, returned, failed, SockAddr, Ran, done, threw, get_local_info,
}

-- What the system calls are going to do; `inet_pton` gives the word of `sin_addr` where it accepts the
-- text.
pub record System : Type 0 where
  pub inet_pton : Bytes → Option ℕ
  pub socket : Call ℕ
  pub set_reuse_address : Call (Unit {0})
  pub connect : Call (Unit {0})
  pub getsockname : Call SockAddr
  pub set_send_timeout : Call (Unit {0})
  pub set_receive_timeout : Call (Unit {0})

-- The calls that were made.
pub data SystemCall : Type 0 where
  opened : ℕ → SystemCall
  tried_to_open : SystemCall
  set_reuse_address set_send_timeout set_receive_timeout : SystemCall
  connected : SockAddr → SystemCall
  asked_name : SystemCall
  closed : ℕ → SystemCall

-- The object, and the calls, the last first. `sockfd` is none where the code has -1.
pub record Life : Type 0 where
  pub sockfd : Option ℕ
  pub is_open : Bool
  pub address : SockAddr
  pub local_ip_port : ℕ × ℕ
  pub calls : List SystemCall

abbrev Step : Type 0 → Type 0
Step A = Life → Ran A × Life

abbrev pub and_then : {A B : Type 0} → Ran A → (A → Step B) → Step B
and_then (done a) f o = f a o
and_then (threw what) f o = (threw what, o)

infixl 5 ◌>>=◌ ◌>>◌
abbrev pub ◌>>=◌ : {A B : Type 0} → Step A → (A → Step B) → Step B
◌>>=◌ m f o = let (r, o') = m o in and_then r f o'

abbrev pub ◌>>◌ : {B : Type 0} → Step (Unit {0}) → Step B → Step B
m >> k = m >>= λ _. k

-- `if (call(...) < 0) throw std::runtime_error(what);`
abbrev pub check : {A : Type 0} → SystemCall → Call A → Bytes → Step A
check name (returned a) what o = (done a, record o { calls = name ∷ o.calls })
check name (failed errno) what o = (threw what, record o { calls = name ∷ o.calls })

abbrev pub no_address : SockAddr
no_address = record { sin_addr = 0; sin_port = 0 }

-- `BaseSocket::BaseSocket`; `local_ip_port` is value-initialised, being a pair.
unfoldable pub base_socket : Platform → System → Bytes → ℕ → Ran Life
base_socket p system ipv4_address port = elim (system.inet_pton ipv4_address) [
  | none ↦ threw (codes "[BaseSocket] Invalid IPv4 address")
  | some word ↦ done (record {
    sockfd = none;
    is_open = false;
    address = record { sin_addr = word; sin_port = p.htons port };
    local_ip_port = (0, 0);
    calls = [];
  })
]

-- `BaseSocket::~BaseSocket`
unfoldable pub destroy : Life → Life
destroy o =
    let emptied : Life = record o {
      sockfd = none;
      is_open = false;
      address = no_address;
      local_ip_port = (0, 0);
    } in
    elim o.sockfd [ none ↦ emptied | some fd ↦ record emptied { calls = closed fd ∷ o.calls } ]

-- `sockfd = socket(AF_INET, SOCK_DGRAM, 0); if (sockfd == -1) throw ...;`
abbrev pub open_socket : Call ℕ → Step (Unit {0})
open_socket (returned fd) o = (done tt, record o { sockfd = some fd; calls = opened fd ∷ o.calls })
open_socket (failed errno) o =
    (threw (codes "[UDPSocket] Invalid sockfd"), record o { calls = tried_to_open ∷ o.calls })

unfoldable pub connect_socket : System → Step (Unit {0})
connect_socket system o = check (connected o.address) system.connect (codes "getsockname failed") o

-- `local_ip_port = get_local_info();`
abbrev pub assign_local : Ran (ℕ × ℕ) → Step (Unit {0})
assign_local (done local) o = (done tt, record o { local_ip_port = local })
assign_local (threw what) o = (threw what, o)

abbrev pub ask_name : Platform → System → Step (Unit {0})
ask_name p system o =
    assign_local (get_local_info p system.getsockname) (record o { calls = asked_name ∷ o.calls })

abbrev pub set_timeouts : System → Step (Unit {0})
set_timeouts system =
    check set_send_timeout system.set_send_timeout (codes "[UDPSocket] setsockopt error")
    >> check set_receive_timeout system.set_receive_timeout (codes "[UDPSocket] setsockopt error")

-- `if (should_connect) { connect_socket(); local_ip_port = get_local_info(); }`
abbrev pub connect_if : Platform → System → Bool → Step (Unit {0})
connect_if p system true = connect_socket system >> ask_name p system
connect_if p system false = λ o. (done tt, o)

-- What follows `socket` in the constructor.
abbrev pub configure : Platform → System → Bool → Step (Unit {0})
configure p system should_connect =
    check set_reuse_address system.set_reuse_address
      (codes "[UDPSocket] setsockopt(SO_REUSEADDR) failed")
    >> (connect_if p system should_connect >> set_timeouts system)

-- The body of `UDPSocket::UDPSocket`.
abbrev pub udp_socket_body : Platform → System → Bool → Step (Unit {0})
udp_socket_body p system should_connect =
    open_socket system.socket >> configure p system should_connect

-- An exception out of the body destroys the base that was constructed before it.
abbrev pub unwound : Ran (Unit {0}) × Life → Ran (Unit {0}) × Life
unwound (done u, o) = (done u, o)
unwound (threw what, o) = (threw what, destroy o)

-- The object whose lifetime is over.
abbrev pub no_life : Life
no_life = record {
  sockfd = none;
  is_open = false;
  address = no_address;
  local_ip_port = (0, 0);
  calls = [];
}

-- An exception of the base's constructor leaves nothing behind.
abbrev pub on_base : Ran Life → Step (Unit {0}) → Ran (Unit {0}) × Life
on_base (done o) body = unwound (body o)
on_base (threw what) body = (threw what, no_life)

-- `UDPSocket::UDPSocket`: the outcome, and the object or what is left of it.
unfoldable pub udp_socket : Platform → System → Bytes → ℕ → Bool → Ran (Unit {0}) × Life
udp_socket p system ipv4_address port should_connect =
    on_base (base_socket p system ipv4_address port) (udp_socket_body p system should_connect)
