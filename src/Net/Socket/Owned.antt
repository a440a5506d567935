-- ===== src/Net/Socket/Owned.antt =====
-- udp_socket.cpp: how often each descriptor is open after the calls of UdpSocket.
use Prim.Native.String.{String}
use driveflow_runtime.Prelude.{
  ℕ, ◌+◌, ◌-◌, ◌≡◌, ap, ◌∙◌, Bool, true, false, ◌||◌, Option, none, some, List, arith, ltb, length,
  ◌==◌, if◌then◌else◌,
}
use driveflow_runtime.Prelude.Result.{Result, ok, throws}
use driveflow_runtime.Net.{Ipv4Endpoint, ReceivedDatagram}
use driveflow_runtime.Net.Socket.{
  System, Address, Call, Received, would_block, error, message, after, guarded, closing, emptied,
  checked, given, to_sockaddr, from_sockaddr, open_socket, bind_to, set_non_blocking,
  local_endpoint, send_to, receive, receive_datagram, after_recvmsg, max_udp_payload_size,
}

-- Whether a descriptor is `y`, as a number.
abbrev pub one : ℕ → ℕ → ℕ
one fd y = if fd == y then 1 else 0

abbrev pub opened : Option ℕ → ℕ → ℕ
opened none y = 0
opened (some fd) y = one fd y

-- What is documented of the calls: which of them open and close a descriptor. `opens s y` is how
-- often the descriptor `y` is open.
pub record IsSystem (system : System) (opens : system.State → ℕ → ℕ) : Type 0 where
  pub socket :
      (s : system.State) (y : ℕ)
      → opens (system.socket s).1 y ≡ opens s y + opened (system.socket s).0 y
  pub epoll_create :
      (s : system.State) (y : ℕ)
      → opens (system.epoll_create s).1 y ≡ opens s y + opened (system.epoll_create s).0 y
  pub close :
      (fd : ℕ) (s : system.State) (y : ℕ) → opens (system.close fd s) y ≡ opens s y - one fd y
  pub bind :
      (fd : ℕ) (a : Address) (s : system.State) (y : ℕ) → opens (system.bind fd a s).1 y ≡ opens s y
  pub get_flags :
      (fd : ℕ) (s : system.State) (y : ℕ) → opens (system.get_flags fd s).1 y ≡ opens s y
  pub set_flags :
      (fd flags : ℕ) (s : system.State) (y : ℕ)
      → opens (system.set_non_blocking fd flags s).1 y ≡ opens s y
  pub get_name : (fd : ℕ) (s : system.State) (y : ℕ) → opens (system.get_name fd s).1 y ≡ opens s y
  pub send :
      (fd : ℕ) (bytes : List ℕ) (a : Address) (s : system.State) (y : ℕ)
      → opens (system.send fd bytes a s).1 y ≡ opens s y
  pub receive :
      (fd size : ℕ) (s : system.State) (y : ℕ) → opens (system.receive fd size s).1 y ≡ opens s y
  pub epoll_add :
      (epoll fd index : ℕ) (s : system.State) (y : ℕ)
      → opens (system.epoll_add epoll fd index s).1 y ≡ opens s y

module _ (system : System) (opens : system.State → ℕ → ℕ) (laws : IsSystem system opens)
    (y : ℕ) where
  -- `y` is open `n + f a` times after a call that returns `a`, and `m` times after one that throws.
  abbrev pub Leaves : {A : Type 0} → ℕ → ℕ → (A → ℕ) → Result A × system.State → Type 0
  Leaves n m f (Result.ok a, s) = opens s y ≡ n + f a
  Leaves n m f (Result.throws e, s) = opens s y ≡ m

  pub after-Leaves :
      {A B : Type 0} (k n m : ℕ) (f : A → ℕ) (g : B → ℕ) (o : Result A × system.State)
      (next : A → Call system B)
      → Leaves k m f o
      → ((a : A) (s : system.State) → opens s y ≡ k + f a → Leaves n m g (next a s))
      → Leaves n m g (after system o next)
  after-Leaves k n m f g (ok a, s) next h then_next = then_next a s h
  after-Leaves k n m f g (throws e, s) next h then_next = h

  pub guarded-Leaves :
      {A : Type 0} (n m fd : ℕ) (f : A → ℕ) (o : Result A × system.State)
      → Leaves n (m + one fd y) f o
      → Leaves n m f (guarded system fd o)
  guarded-Leaves n m fd f (ok a, s) h = h
  guarded-Leaves n m fd f (throws e, s) h = omega (arith, laws.close fd s y, h)

  pub checked-Leaves :
      (n : ℕ) (o : Bool × system.State) (operation : String)
      → opens o.1 y ≡ n
      → Leaves n n (λ u. 0) (checked system o operation)
  checked-Leaves n (true, s) operation h = omega (arith, h)
  checked-Leaves n (false, s) operation h = h

  pub given-Leaves :
      {A : Type 0} (n : ℕ) (o : Option A × system.State) (operation : String)
      → opens o.1 y ≡ n
      → Leaves n n (λ u. 0) (given system o operation)
  given-Leaves n (some a, s) operation h = omega (arith, h)
  given-Leaves n (none, s) operation h = h

  pub opened-Leaves :
      (n : ℕ) (o : Option ℕ × system.State) (operation : String)
      → opens o.1 y ≡ n + opened o.0 y
      → Leaves n n (λ fd. one fd y) (given system o operation)
  opened-Leaves n (some fd, s) operation h = h
  opened-Leaves n (none, s) operation h = omega (arith, h)

  -- A result that no call of the system stands behind.
  pub pure-Leaves :
      {A : Type 0} (n : ℕ) (r : Result A) (s : system.State)
      → opens s y ≡ n
      → Leaves n n (λ u. 0) (r, s)
  pure-Leaves n (ok a) s h = omega (arith, h)
  pure-Leaves n (throws e) s h = h

  pub bind_to-Leaves :
      (n : ℕ) (endpoint : Ipv4Endpoint) (s : system.State)
      → opens s y ≡ n
      → Leaves n n (λ fd. one fd y) (bind_to system endpoint s)
  unfolding bind_to open_socket
  bind_to-Leaves n endpoint s h =
      after-Leaves n n n (λ fd. one fd y) (λ fd. one fd y) (given system (system.socket s) "socket")
        _
        (opened-Leaves n (system.socket s) "socket"
          (laws.socket s y ∙ ap (λ k. k + opened (system.socket s).0 y) h))
        λ fd s1 h1.
          let k = n + one fd y in
          guarded-Leaves n n fd (λ fd. one fd y) _
            (after-Leaves k n k (λ a. 0) (λ fd. one fd y) (to_sockaddr system endpoint, s1) _
              (pure-Leaves k (to_sockaddr system endpoint) s1 h1)
              λ a s2 h2.
                after-Leaves k n k (λ u. 0) (λ fd. one fd y)
                  (checked system (system.bind fd a s2) "bind") _
                  (checked-Leaves k (system.bind fd a s2) "bind"
                    (omega (arith, laws.bind fd a s2 y, h2)))
                  λ u s3 h3. omega (arith, h3))

  pub set_non_blocking-Leaves :
      (n fd : ℕ) (s : system.State)
      → opens s y ≡ n
      → Leaves n n (λ u. 0) (set_non_blocking system fd s)
  unfolding set_non_blocking
  set_non_blocking-Leaves n fd s h =
      after-Leaves n n n (λ flags. 0) (λ u. 0)
        (given system (system.get_flags fd s) "fcntl(F_GETFL)") _
        (given-Leaves n (system.get_flags fd s) "fcntl(F_GETFL)" (laws.get_flags fd s y ∙ h))
        λ flags s1 h1.
          checked-Leaves n (system.set_non_blocking fd flags s1) "fcntl(F_SETFL)"
            (omega (arith, laws.set_flags fd flags s1 y, h1))

  pub local_endpoint-Leaves :
      (n fd : ℕ) (s : system.State)
      → opens s y ≡ n
      → Leaves n n (λ u. 0) (local_endpoint system fd s)
  unfolding local_endpoint
  local_endpoint-Leaves n fd s h =
      after-Leaves n n n (λ a. 0) (λ u. 0) (given system (system.get_name fd s) "getsockname") _
        (given-Leaves n (system.get_name fd s) "getsockname" (laws.get_name fd s y ∙ h))
        λ a s1 h1. pure-Leaves n (from_sockaddr system a) s1 (omega (arith, h1))

  pub open_socket-Leaves :
      (n : ℕ) (s : system.State)
      → opens s y ≡ n
      → Leaves n n (λ fd. one fd y) (open_socket system s)
  unfolding open_socket
  open_socket-Leaves n s h =
      opened-Leaves n (system.socket s) "socket"
        (laws.socket s y ∙ ap (λ k. k + opened (system.socket s).0 y) h)

  -- A socket that its scope closes, however it ends.
  pub closing-Leaves :
      {A : Type 0} (n fd : ℕ) (o : Result A × system.State)
      → Leaves (n + one fd y) (n + one fd y) (λ a. 0) o
      → Leaves n n (λ a. 0) (closing system fd o)
  closing-Leaves n fd (ok a, s) h = omega (arith, laws.close fd s y, h)
  closing-Leaves n fd (throws e, s) h = omega (arith, laws.close fd s y, h)

  -- Both branches of a test.
  if-Leaves :
      {A : Type 0} (n : ℕ) (b : Bool) (o o' : Result A × system.State)
      → Leaves n n (λ a. 0) o
      → Leaves n n (λ a. 0) o'
      → Leaves n n (λ a. 0) (if b then o else o')
  if-Leaves n true o o' h h' = h
  if-Leaves n false o o' h h' = h'

  pub send_to-Leaves :
      (n fd : ℕ) (bytes : List ℕ) (destination : Ipv4Endpoint) (s : system.State)
      → opens s y ≡ n
      → Leaves n n (λ u. 0) (send_to system fd bytes destination s)
  unfolding send_to
  send_to-Leaves n fd bytes destination s h =
      if-Leaves n (ltb max_udp_payload_size (length bytes)) _ _ h (
        after-Leaves n n n (λ a. 0) (λ u. 0) (to_sockaddr system destination, s) _
          (pure-Leaves n (to_sockaddr system destination) s h)
          λ a s1 h1.
            after-Leaves n n n (λ sent. 0) (λ u. 0)
              (given system (system.send fd bytes a s1) "sendto") _
              (given-Leaves n (system.send fd bytes a s1) "sendto"
                (omega (arith, laws.send fd bytes a s1 y, h1)))
              λ sent s2 h2. if-Leaves n (sent == length bytes) _ _ h2 (omega (arith, h2)))

  after_recvmsg-Leaves :
      (n size : ℕ) (flag : Bool) (received : Received) (s : system.State)
      → opens s y ≡ n
      → Leaves n n (λ u. 0) (after_recvmsg system size flag received s)
  unfolding after_recvmsg
  after_recvmsg-Leaves n size flag would_block s h = if-Leaves n flag _ _ (omega (arith, h)) h
  after_recvmsg-Leaves n size flag error s h = h
  after_recvmsg-Leaves n size flag (message bytes length truncated source) s h =
      if-Leaves n (truncated || ltb size length) _ _ h (
        after-Leaves n n n (λ a. 0) (λ u. 0) (from_sockaddr system source, s) _
          (pure-Leaves n (from_sockaddr system source) s h) λ a s1 h1. omega (arith, h1))

  receive_datagram-Leaves :
      (n fd size : ℕ) (flag : Bool) (s : system.State)
      → opens s y ≡ n
      → Leaves n n (λ u. 0) (receive_datagram system fd size flag s)
  unfolding receive_datagram
  receive_datagram-Leaves n fd size flag s h =
      if-Leaves n (size == 0 || ltb max_udp_payload_size size) _ _ h (
        after_recvmsg-Leaves n size flag (system.receive fd size s).0 (system.receive fd size s).1
          (omega (arith, laws.receive fd size s y, h)))

  emptied-Leaves :
      (n : ℕ) (o : Result (Option ReceivedDatagram) × system.State)
      → Leaves n n (λ u. 0) o
      → Leaves n n (λ u. 0) (emptied system o)
  emptied-Leaves n (ok (some datagram), s) h = h
  emptied-Leaves n (ok none, s) h = omega (arith, h)
  emptied-Leaves n (throws e, s) h = h

  pub receive-Leaves :
      (n fd size : ℕ) (s : system.State)
      → opens s y ≡ n
      → Leaves n n (λ u. 0) (receive system fd size s)
  unfolding receive
  receive-Leaves n fd size s h =
      emptied-Leaves n (receive_datagram system fd size false s)
        (receive_datagram-Leaves n fd size false s h)
