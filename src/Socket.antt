-- ===== src/Socket.antt =====
-- client/src/networkUtils/udpSocket.cpp on a POSIX host: what the methods make of the system calls'
-- outcomes. An outcome, the two values of errno and the conversions of <arpa/inet.h> are arguments.
pub mod Address
pub mod Life
pub mod Closed
pub mod Works
mod Tests
use sc4051_distributed_banki.Base.{
  ℕ, Bool, true, false, ◌||◌, List, [], ◌∷◌, length, take, ◌==◌, if◌then◌else◌,
}
use sc4051_distributed_banki.Base.Outcome.{
  InternalError, Result, ok, fail, send_timeout, send_failed, receive_timeout, receive_failed,
  bind_failed,
}
use sc4051_distributed_banki.Base.Text.{codes}
use sc4051_distributed_banki.Memory.{Bytes, Platform, load}

-- <cerrno>
pub record Errno : Type 0 where
  pub eagain : ℕ
  pub ewouldblock : ℕ

-- A call that returned -1 and set errno, or did its work.
pub data Call (A : Type 0) : Type 0 where
  returned : A → Call A
  failed : ℕ → Call A

abbrev pub would_block : Errno → ℕ → Bool
would_block e errno = errno == e.eagain || errno == e.ewouldblock

-- The outcome of `sendto` is the number of bytes that went out, which the code does not look at.
unfoldable pub send_message : Errno → Call ℕ → Result (Unit {0})
send_message e (returned count) = ok tt
send_message e (failed errno) = if would_block e errno then fail send_timeout else fail send_failed

-- The outcome of `recvfrom` is the number of bytes that came in and the buffer that holds them first;
-- the buffer is resized to them.
unfoldable pub receive_message : Errno → Call (ℕ × Bytes) → Result Bytes
receive_message e (returned (count, buffer)) = ok (take count buffer)
receive_message e (failed errno) =
    if would_block e errno then fail receive_timeout else fail receive_failed

-- The members of the `sockaddr_in` that `getsockname` fills, as words of the host whose bytes lie in
-- network order.
pub record SockAddr : Type 0 where
  pub sin_addr : ℕ
  pub sin_port : ℕ

-- A call that returns, or throws a std::runtime_error with a text.
pub data Ran (A : Type 0) : Type 0 where
  done : A → Ran A
  threw : Bytes → Ran A

abbrev pub map_ran : {A B : Type 0} → (A → B) → Ran A → Ran B
map_ran f (done a) = done (f a)
map_ran f (threw what) = threw what

unfoldable pub get_local_info : Platform → Call SockAddr → Ran (ℕ × ℕ)
get_local_info p (returned local) = done (p.ntohl local.sin_addr, p.ntohs local.sin_port)
get_local_info p (failed errno) = threw (codes "getsockname failed")

-- The second argument is what `getsockname` is going to do behind a `bind` that works; the value of the
-- result is the new `local_ip_port`.
unfoldable pub bind_socket : Platform → Call (Unit {0}) → Call SockAddr → Ran (Result (ℕ × ℕ))
bind_socket p (returned u) name = map_ran ok (get_local_info p name)
bind_socket p (failed errno) name = done (fail bind_failed)
