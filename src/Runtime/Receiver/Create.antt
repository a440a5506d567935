-- ===== src/Runtime/Receiver/Create.antt =====
-- epoll_receiver.cpp: the constructor of `EpollReceiver::Impl` over the system's calls. What is made
-- is destroyed where a later part throws.
use driveflow_runtime.Prelude.{ℕ, List, [], ◌∷◌, ◌++◌, length}
use driveflow_runtime.Prelude.Result.{Result, ok, throws}
use driveflow_runtime.Net.{Ipv4Endpoint}
use driveflow_runtime.Net.Socket.{
  System, Call, after, guarded, checked, given, bind_to, set_non_blocking, local_endpoint,
}
use driveflow_runtime.Runtime.Receiver.Setup.{EpollReceiverConfig, create_epoll}

-- `Listener`, with the descriptor of its socket.
pub record Listener : Type 0 where
  pub socket : ℕ
  pub local_endpoint : Ipv4Endpoint

-- What the constructor makes.
pub record Created : Type 0 where
  pub epoll_file_descriptor : ℕ
  pub listeners : List Listener

module _ (system : System) where
  -- The call of epoll_create1, where the checks before it pass.
  abbrev pub create : Result ℕ → Call system ℕ
  create (Result.throws e) s = (throws e, s)
  create (Result.ok unused) s = given system (system.epoll_create s) "epoll_create1"

  unfoldable pub create_descriptor : EpollReceiverConfig → Call system ℕ
  unfolding create_epoll
  create_descriptor config s = create (create_epoll config (ok 0)) s

  -- The body of the loop over the endpoints.
  unfoldable pub register : ℕ → ℕ → Ipv4Endpoint → Call system Listener
  unfolding bind_to set_non_blocking local_endpoint
  register epoll index requested_endpoint s =
      after system (bind_to system requested_endpoint s) λ fd s1. guarded system fd (
        after system (set_non_blocking system fd s1) λ _ s2.
          after system (local_endpoint system fd s2) λ actual_endpoint s3.
            after system
              (checked system (system.epoll_add epoll fd index s3) "epoll_ctl(EPOLL_CTL_ADD)")
              λ _ s4. (ok (record { socket = fd; local_endpoint = actual_endpoint }), s4))

  -- The destruction of the vector of listeners.
  unfoldable pub close_all : List Listener → system.State → system.State
  close_all [] s = s
  close_all (listener ∷ rest) s = close_all rest (system.close listener.socket s)

  abbrev pub register_then :
      List Listener
      → (Listener → Call system (List Listener))
      → Result Listener × system.State
      → Result (List Listener) × system.State
  register_then listeners next (Result.throws e, s) = (throws e, close_all listeners s)
  register_then listeners next (Result.ok listener, s) = next listener s

  unfoldable pub register_all : ℕ → List Ipv4Endpoint → List Listener → Call system (List Listener)
  unfolding register close_all
  register_all epoll [] listeners s = (ok listeners, s)
  register_all epoll (endpoint ∷ endpoints) listeners s =
      register_then listeners
        (λ listener s'. register_all epoll endpoints (listeners ++ listener ∷ []) s')
        (register epoll (length listeners) endpoint s)

  unfoldable pub create_receiver : EpollReceiverConfig → Call system Created
  unfolding create_descriptor register_all
  create_receiver config s = after system (create_descriptor config s) λ epoll s1.
      guarded system epoll (
        after system (register_all epoll config.listen_endpoints [] s1) λ listeners s2.
          (ok (record { epoll_file_descriptor = epoll; listeners = listeners }), s2))
