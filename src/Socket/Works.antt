-- ===== src/Socket/Works.antt =====
-- When the constructor of `UDPSocket` returns.
use sc4051_distributed_banki.Base.{
  ℕ, ◌≡◌, refl, ◌∙◌, Option, none, some, Bool, true, false, ◌&&◌, Option-cases, inl, inr,
}
use sc4051_distributed_banki.Memory.{Bytes, Platform}
use sc4051_distributed_banki.Socket.{
  Call, returned, failed, SockAddr, Ran, done, threw, get_local_info,
}
use sc4051_distributed_banki.Socket.Life.{
  System, SystemCall, set_reuse_address, set_send_timeout, set_receive_timeout, connected, Life,
  and_then, ◌>>◌, check, open_socket, connect_socket, ask_name, set_timeouts, connect_if, configure,
  udp_socket_body, unwound, udp_socket,
}
use sc4051_distributed_banki.Socket.Closed.{unopened, base_refused, base_accepted}

abbrev pub is_done : {A : Type 0} → Ran A → Bool
is_done (done a) = true
is_done (threw what) = false

abbrev pub is_returned : {A : Type 0} → Call A → Bool
is_returned (returned a) = true
is_returned (failed errno) = false

abbrev pub is_some : {A : Type 0} → Option A → Bool
is_some (some a) = true
is_some none = false

-- The calls that the constructor of a socket that connects makes.
abbrev pub all_work : System → Bytes → Bool
all_work system ip =
    is_some (system.inet_pton ip)
    && (is_returned system.socket
        && (is_returned system.set_reuse_address
            && ((is_returned system.connect && is_returned system.getsockname)
                && (is_returned system.set_send_timeout
                    && is_returned system.set_receive_timeout))))

-- Whatever the object, the step returns just when the test says so.
abbrev ReturnsIf : Bool → (Life → Ran (Unit {0}) × Life) → Type 0
ReturnsIf b m = (o : Life) → is_done (m o).0 ≡ b

check-ReturnsIf :
    (name : SystemCall) (call : Call (Unit {0})) (what : Bytes)
    → ReturnsIf (is_returned call) (check name call what)
check-ReturnsIf name (returned u) what o = refl
check-ReturnsIf name (failed errno) what o = refl

and_then-ReturnsIf :
    (r : Ran (Unit {0})) (a b : Bool) (f : Life → Ran (Unit {0}) × Life) (o : Life)
    → is_done r ≡ a
    → ReturnsIf b f
    → is_done (and_then r (λ u. f) o).0 ≡ (a && b)
and_then-ReturnsIf (done u) a b f o h k = rw (← h) (k o)
and_then-ReturnsIf (threw what) a b f o h k = rw (← h) refl

bind-ReturnsIf :
    (a b : Bool) (m f : Life → Ran (Unit {0}) × Life)
    → ReturnsIf a m
    → ReturnsIf b f
    → ReturnsIf (a && b) (m >> f)
bind-ReturnsIf a b m f h k o = and_then-ReturnsIf (m o).0 a b f (m o).1 (h o) k

unwound_same : (r : Ran (Unit {0})) (o : Life) → is_done (unwound (r, o)).0 ≡ is_done r
unwound_same (done u) o = refl
unwound_same (threw what) o = refl

module _ (p : Platform) (system : System) where
  name-ReturnsIf : ReturnsIf (is_returned system.getsockname) (ask_name p system)
  unfolding get_local_info
  name-ReturnsIf o = by_name system.getsockname
    where
      by_name :
          (call : Call SockAddr)
          → is_done (ask_name p (record system { getsockname = call }) o).0 ≡ is_returned call
      by_name (returned local) = refl
      by_name (failed errno) = refl

  connect-ReturnsIf : ReturnsIf (is_returned system.connect) (connect_socket system)
  unfolding connect_socket
  connect-ReturnsIf o = check-ReturnsIf (connected o.address) system.connect _ o

  configure-ReturnsIf :
      ReturnsIf
        (is_returned system.set_reuse_address
          && ((is_returned system.connect && is_returned system.getsockname)
              && (is_returned system.set_send_timeout && is_returned system.set_receive_timeout)))
        (configure p system true)
  configure-ReturnsIf =
      bind-ReturnsIf _ _ (check set_reuse_address system.set_reuse_address _) _
        (check-ReturnsIf set_reuse_address system.set_reuse_address _)
        (bind-ReturnsIf _ _ (connect_if p system true) (set_timeouts system)
          (bind-ReturnsIf _ _ (connect_socket system) (ask_name p system) connect-ReturnsIf
            name-ReturnsIf)
          (bind-ReturnsIf _ _ (check set_send_timeout system.set_send_timeout _) _
            (check-ReturnsIf set_send_timeout system.set_send_timeout _)
            (check-ReturnsIf set_receive_timeout system.set_receive_timeout _)))

  open-ReturnsIf : ReturnsIf (is_returned system.socket) (open_socket system.socket)
  open-ReturnsIf o = by_socket system.socket
    where
      by_socket : (call : Call ℕ) → is_done (open_socket call o).0 ≡ is_returned call
      by_socket (returned fd) = refl
      by_socket (failed errno) = refl

  body_done :
      (o : Life)
      → is_done (unwound (udp_socket_body p system true o)).0 ≡ (
          is_returned system.socket
          && (is_returned system.set_reuse_address
              && ((is_returned system.connect && is_returned system.getsockname)
                  && (is_returned system.set_send_timeout
                      && is_returned system.set_receive_timeout))))
  body_done o =
      let (r, o') = udp_socket_body p system true o in
      unwound_same r o'
      ∙ bind-ReturnsIf _ _ (open_socket system.socket) (configure p system true) open-ReturnsIf
          configure-ReturnsIf o

-- The constructor of a socket that connects returns just when every system call that it makes works,
-- and else throws.
pub udp_socket_returns :
    (p : Platform) (system : System) (ip : Bytes) (port : ℕ)
    → is_done (udp_socket p system ip port true).0 ≡ all_work system ip
unfolding udp_socket
udp_socket_returns p system ip port = elim (Option-cases (system.inet_pton ip)) [
  | inl refused ↦ rw (base_refused p system ip port refused, refused) refl
  | inr (word, accepted) ↦
      rw (base_accepted p system ip port word accepted, accepted) (body_done p system (unopened _))
]
