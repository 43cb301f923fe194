-- ===== src/Socket/Closed.antt =====
-- The descriptors of the process that a socket holds, and those that it leaves open.
use sc4051_distributed_banki.Base.{
  ℕ, ◌≡◌, refl, ap, ◌∙◌, none, some, Bool, true, false, List, [], ◌∷◌, ◌==◌, ==_iff, Option-cases,
  inl, inr, if◌then◌else◌,
}
use sc4051_distributed_banki.Base.Text.{codes}
use sc4051_distributed_banki.Memory.{Bytes, Platform}
use sc4051_distributed_banki.Socket.{
  Call, returned, failed, SockAddr, Ran, done, threw, get_local_info,
}
use sc4051_distributed_banki.Socket.Life.{
  System, SystemCall, opened, tried_to_open, set_reuse_address, set_send_timeout,
  set_receive_timeout, connected, asked_name, closed, Life, and_then, ◌>>◌, check, base_socket,
  destroy, open_socket, connect_socket, ask_name, assign_local, set_timeouts, connect_if, configure,
  unwound, udp_socket,
}

abbrev pub remove : ℕ → List ℕ → List ℕ
remove fd [] = []
remove fd (x ∷ xs) = let rest = remove fd xs in if x == fd then xs else x ∷ rest

-- The descriptors that were opened and not closed, the last opened first.
abbrev pub left_open : List SystemCall → List ℕ
left_open [] = []
left_open (opened fd ∷ calls) = fd ∷ left_open calls
left_open (closed fd ∷ calls) = remove fd (left_open calls)
left_open (_ ∷ calls) = left_open calls

remove_only : (fd : ℕ) → remove fd (fd ∷ []) ≡ []
remove_only fd = rw ((==_iff fd fd).1 refl) refl

-- The object has the one open descriptor of its life, and the object that was destroyed has none.
pub record Holds (fd : ℕ) (o : Life) : Type 0 where
  pub has : o.sockfd ≡ some fd
  pub only : left_open o.calls ≡ fd ∷ []

pub record Released (o : Life) : Type 0 where
  pub has_none : o.sockfd ≡ none
  pub none_open : left_open o.calls ≡ []

pub destroy-Released : (fd : ℕ) (o : Life) → Holds fd o → Released (destroy o)
unfolding destroy
destroy-Released fd o h =
    rw h.has (record { has_none = refl; none_open = rw h.only (remove_only fd) })

destroy_none : (o : Life) → Released o → Released (destroy o)
unfolding destroy
destroy_none o h = rw h.has_none (record { has_none = refl; none_open = h.none_open })

-- A step keeps the descriptor.
abbrev Keeps : (Life → Ran (Unit {0}) × Life) → Type 0
Keeps m = (fd : ℕ) (o : Life) → Holds fd o → Holds fd (m o).1

check-Keeps :
    (name : SystemCall) (call : Call (Unit {0})) (what : Bytes)
    → ((calls : List SystemCall) → left_open (name ∷ calls) ≡ left_open calls)
    → Keeps (check name call what)
check-Keeps name (returned u) what h fd o k = record { has = k.has; only = h o.calls ∙ k.only }
check-Keeps name (failed errno) what h fd o k = record { has = k.has; only = h o.calls ∙ k.only }

and_then-Keeps :
    (fd : ℕ) (r : Ran (Unit {0})) (f : Life → Ran (Unit {0}) × Life) (o : Life)
    → Holds fd o
    → Keeps f
    → Holds fd (and_then r (λ u. f) o).1
and_then-Keeps fd (done u) f o h k = k fd o h
and_then-Keeps fd (threw what) f o h k = h

module _ (p : Platform) (system : System) where
  connect-Keeps : Keeps (connect_socket system)
  unfolding connect_socket
  connect-Keeps fd o h = check-Keeps (connected o.address) system.connect _ (λ calls. refl) fd o h

  assign-Keeps : (r : Ran (ℕ × ℕ)) → Keeps (assign_local r)
  assign-Keeps (done local) fd o h = record { has = h.has; only = h.only }
  assign-Keeps (threw what) fd o h = record { has = h.has; only = h.only }

  name-Keeps : Keeps (ask_name p system)
  name-Keeps fd o h =
      assign-Keeps (get_local_info p system.getsockname) fd
        (record o { calls = asked_name ∷ o.calls }) (record { has = h.has; only = h.only })

  bind-Keeps : (m f : Life → Ran (Unit {0}) × Life) → Keeps m → Keeps f → Keeps (m >> f)
  bind-Keeps m f h k fd o x = and_then-Keeps fd (m o).0 f (m o).1 (h fd o x) k

  timeouts-Keeps : Keeps (set_timeouts system)
  timeouts-Keeps =
      bind-Keeps (check set_send_timeout system.set_send_timeout _) _
        (check-Keeps set_send_timeout system.set_send_timeout _ (λ calls. refl))
        (check-Keeps set_receive_timeout system.set_receive_timeout _ (λ calls. refl))

  connect_if-Keeps : (should_connect : Bool) → Keeps (connect_if p system should_connect)
  connect_if-Keeps true =
      bind-Keeps (connect_socket system) (ask_name p system) connect-Keeps name-Keeps
  connect_if-Keeps false = λ fd o h. h

  configure-Keeps : (should_connect : Bool) → Keeps (configure p system should_connect)
  configure-Keeps should_connect =
      bind-Keeps (check set_reuse_address system.set_reuse_address _) _
        (check-Keeps set_reuse_address system.set_reuse_address _ (λ calls. refl))
        (bind-Keeps (connect_if p system should_connect) (set_timeouts system)
          (connect_if-Keeps should_connect) timeouts-Keeps)

-- A socket that was made holds the one open descriptor; where its constructor throws, none is open.
abbrev pub Made : Ran (Unit {0}) × Life → Type 0
Made (done u, o) = (fd : ℕ) × Holds fd o
Made (threw what, o) = Released o

unwound-Made : (fd : ℕ) (r : Ran (Unit {0})) (o : Life) → Holds fd o → Made (unwound (r, o))
unwound-Made fd (done u) o h = (fd, h)
unwound-Made fd (threw what) o h = destroy-Released fd o h

body-Made :
    (p : Platform) (system : System) (should_connect : Bool) (socket : Call ℕ) (o : Life)
    → Released o
    → Made (unwound ((open_socket socket >> configure p system should_connect) o))
body-Made p system should_connect (returned fd) o h =
    let o1 : Life = record o { sockfd = some fd; calls = opened fd ∷ o.calls } in
    let holds : Holds fd o1 = record {
      has = refl;
      only = ap (λ (t : List ℕ). fd ∷ t) h.none_open;
    } in
    let (r, o2) = configure p system should_connect o1 in
    unwound-Made fd r o2 (configure-Keeps p system should_connect fd o1 holds)
body-Made p system should_connect (failed errno) o h =
    destroy_none (record o { calls = tried_to_open ∷ o.calls })
      (record { has_none = h.has_none; none_open = h.none_open })

abbrev pub unopened : SockAddr → Life
unopened address = record {
  sockfd = none;
  is_open = false;
  address = address;
  local_ip_port = (0, 0);
  calls = [];
}

module _ (p : Platform) (system : System) (ip : Bytes) (port : ℕ) where
  pub base_refused :
      system.inet_pton ip ≡ none
      → base_socket p system ip port ≡ threw (codes "[BaseSocket] Invalid IPv4 address")
  unfolding base_socket
  base_refused e = rw (base_socket, e) refl

  pub base_accepted :
      (word : ℕ)
      → system.inet_pton ip ≡ some word
      → base_socket p system ip port
        ≡ done (unopened (record { sin_addr = word; sin_port = p.htons port }))
  unfolding base_socket
  base_accepted word e = rw (base_socket, e) refl

-- Whatever the system calls return, the constructor of `UDPSocket` ends with an object that holds the one
-- descriptor that is open, or throws with no descriptor open.
pub udp_socket-Made :
    (p : Platform) (system : System) (ip : Bytes) (port : ℕ) (should_connect : Bool)
    → Made (udp_socket p system ip port should_connect)
unfolding udp_socket
udp_socket-Made p system ip port should_connect = elim (Option-cases (system.inet_pton ip)) [
  | inl refused ↦
      rw (base_refused p system ip port refused) (record { has_none = refl; none_open = refl })
  | inr (word, accepted) ↦ rw (base_accepted p system ip port word accepted) (
      body-Made p system should_connect system.socket
        (unopened (record { sin_addr = word; sin_port = p.htons port }))
        (record { has_none = refl; none_open = refl }))
]
