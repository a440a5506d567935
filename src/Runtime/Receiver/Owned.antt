-- ===== src/Runtime/Receiver/Owned.antt =====
-- epoll_receiver.cpp and udp_socket.cpp: the constructor of the receiver leaks no descriptor.
use driveflow_runtime.Prelude.{ℕ, ◌+◌, ◌-◌, ◌≡◌, refl, ap, ◌∙◌, List, [], ◌∷◌, ◌++◌, arith, length}
use driveflow_runtime.Prelude.Result.{Result, ok, throws}
use driveflow_runtime.Net.{Ipv4Endpoint}
use driveflow_runtime.Net.Socket.{System, Call, checked, bind_to, set_non_blocking, local_endpoint}
use driveflow_runtime.Net.Socket.Owned.{
  one, opened, IsSystem, Leaves, after-Leaves, guarded-Leaves, checked-Leaves, opened-Leaves,
  bind_to-Leaves, set_non_blocking-Leaves, local_endpoint-Leaves,
}
use driveflow_runtime.Runtime.Receiver.Setup.{EpollReceiverConfig, create_epoll}
use driveflow_runtime.Runtime.Receiver.Create.{
  Listener, Created, create, create_descriptor, register, close_all, register_then, register_all,
  create_receiver,
}

-- How often `y` is among the descriptors of the listeners.
unfoldable pub held_by : List Listener → ℕ → ℕ
held_by [] y = 0
held_by (listener ∷ rest) y = one listener.socket y + held_by rest y

-- The descriptors that the outcome of the constructor owns.
abbrev pub owned : Result Created → ℕ → ℕ
owned (Result.throws e) y = 0
owned (Result.ok created) y = one created.epoll_file_descriptor y + held_by created.listeners y

held_by-append :
    (xs : List Listener) (x : Listener) (y : ℕ)
    → held_by (xs ++ x ∷ []) y ≡ held_by xs y + one x.socket y
unfolding held_by
held_by-append [] x y = omega arith
held_by-append (z ∷ xs) x y = omega (arith, held_by-append xs x y)

module _ (system : System) (opens : system.State → ℕ → ℕ) (laws : IsSystem system opens)
    (y : ℕ) where
  register-Leaves :
      (n epoll index : ℕ) (endpoint : Ipv4Endpoint) (s : system.State)
      → opens s y ≡ n
      → Leaves system opens laws y n n
          (λ listener. one listener.socket y)
          (register system epoll index endpoint s)
  unfolding register
  register-Leaves n epoll index endpoint s h =
      after-Leaves system opens laws y n n n (λ fd. one fd y) (λ listener. one listener.socket y)
        (bind_to system endpoint s) _ (bind_to-Leaves system opens laws y n endpoint s h)
        λ fd s1 h1.
          let k = n + one fd y in
          guarded-Leaves system opens laws y n n fd (λ listener. one listener.socket y) _
            (after-Leaves system opens laws y k n k (λ u. 0) (λ listener. one listener.socket y)
              (set_non_blocking system fd s1) _
              (set_non_blocking-Leaves system opens laws y k fd s1 h1)
              λ u s2 h2.
                after-Leaves system opens laws y k n k (λ a. 0) (λ listener. one listener.socket y)
                  (local_endpoint system fd s2) _
                  (local_endpoint-Leaves system opens laws y k fd s2 (omega (arith, h2)))
                  λ a s3 h3.
                    after-Leaves system opens laws y k n k (λ u. 0)
                      (λ listener. one listener.socket y)
                      (checked system (system.epoll_add epoll fd index s3)
                        "epoll_ctl(EPOLL_CTL_ADD)")
                      _
                      (checked-Leaves system opens laws y k (system.epoll_add epoll fd index s3)
                        "epoll_ctl(EPOLL_CTL_ADD)"
                        (omega (arith, laws.epoll_add epoll fd index s3 y, h3)))
                      λ v s4 h4. omega (arith, h4))

  close_all-closes :
      (listeners : List Listener) (s : system.State)
      → opens (close_all system listeners s) y ≡ opens s y - held_by listeners y
  unfolding close_all held_by
  close_all-closes [] s = omega arith
  close_all-closes (listener ∷ rest) s = omega (
    arith,
    close_all-closes rest (system.close listener.socket s),
    laws.close listener.socket s y,
  )

  registered-Leaves :
      (n : ℕ) (listeners : List Listener) (next : Listener → Call system (List Listener))
      (o : Result Listener × system.State)
      → Leaves system opens laws y
          (n + held_by listeners y)
          (n + held_by listeners y)
          (λ l. one l.socket y)
          o
      → ((l : Listener) (s : system.State)
          → opens s y ≡ n + held_by (listeners ++ l ∷ []) y
          → Leaves system opens laws y n n (λ ls. held_by ls y) (next l s))
      → Leaves system opens laws y n n (λ ls. held_by ls y) (register_then system listeners next o)
  registered-Leaves n listeners next (ok listener, s) e then_next =
      then_next listener s (omega (arith, e, held_by-append listeners listener y))
  registered-Leaves n listeners next (throws x, s) e then_next =
      omega (arith, e, close_all-closes listeners s)

  register_all-Leaves :
      (n epoll : ℕ) (endpoints : List Ipv4Endpoint) (listeners : List Listener) (s : system.State)
      → opens s y ≡ n + held_by listeners y
      → Leaves system opens laws y n n
          (λ ls. held_by ls y)
          (register_all system epoll endpoints listeners s)
  unfolding register_all
  register_all-Leaves n epoll [] listeners s h = h
  register_all-Leaves n epoll (endpoint ∷ endpoints) listeners s h =
      registered-Leaves n listeners _ (register system epoll (length listeners) endpoint s)
        (register-Leaves (n + held_by listeners y) epoll (length listeners) endpoint s h)
        λ l s' e. register_all-Leaves n epoll endpoints (listeners ++ l ∷ []) s' e

  create-Leaves :
      (n : ℕ) (r : Result ℕ) (s : system.State)
      → opens s y ≡ n
      → Leaves system opens laws y n n (λ fd. one fd y) (create system r s)
  create-Leaves n (ok unused) s h =
      opened-Leaves system opens laws y n (system.epoll_create s) "epoll_create1"
        (laws.epoll_create s y ∙ ap (λ k. k + opened (system.epoll_create s).0 y) h)
  create-Leaves n (throws e) s h = h

  create_receiver-Leaves :
      (n : ℕ) (config : EpollReceiverConfig) (s : system.State)
      → opens s y ≡ n
      → Leaves system opens laws y n n
          (λ c. one c.epoll_file_descriptor y + held_by c.listeners y)
          (create_receiver system config s)
  unfolding create_receiver create_descriptor held_by
  create_receiver-Leaves n config s h =
      after-Leaves system opens laws y n n n (λ fd. one fd y) _
        (create system (create_epoll config (ok 0)) s) _
        (create-Leaves n (create_epoll config (ok 0)) s h)
        λ epoll s1 h1.
          let k = n + one epoll y in
          guarded-Leaves system opens laws y n n epoll
            (λ c. one c.epoll_file_descriptor y + held_by c.listeners y) _
            (after-Leaves system opens laws y k n k (λ ls. held_by ls y)
              (λ c. one c.epoll_file_descriptor y + held_by c.listeners y)
              (register_all system epoll config.listen_endpoints [] s1) _
              (register_all-Leaves k epoll config.listen_endpoints [] s1 (omega (arith, h1)))
              λ ls s2 h2. omega (arith, h2))

  outcome-Leaves :
      (n : ℕ) (o : Result Created × system.State)
      → Leaves system opens laws y n n
          (λ c. one c.epoll_file_descriptor y + held_by c.listeners y)
          o
      → opens o.1 y ≡ n + owned o.0 y
  outcome-Leaves n (ok c, s) h = h
  outcome-Leaves n (throws e, s) h = omega (arith, h)

-- However the system's calls fail, the constructor of the receiver leaks no descriptor and closes
-- none that was open before: if it throws, each descriptor is open as often as before; if it
-- returns, those opened besides are the epoll descriptor and those of the listeners. This rests on
-- which calls are documented to open or close a descriptor.
pub create_receiver-owned :
    (system : System) (opens : system.State → ℕ → ℕ) (config : EpollReceiverConfig)
    (s : system.State) (y : ℕ)
    → IsSystem system opens
    → opens (create_receiver system config s).1 y
      ≡ opens s y + owned (create_receiver system config s).0 y
create_receiver-owned system opens config s y laws =
    outcome-Leaves system opens laws y (opens s y) (create_receiver system config s)
      (create_receiver-Leaves system opens laws y (opens s y) config s refl)
