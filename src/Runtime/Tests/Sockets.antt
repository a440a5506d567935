-- ===== src/Runtime/Tests/Sockets.antt =====
-- The constructor of the receiver on a system whose state is how often each descriptor is open, and
-- on which one port cannot be bound.
use driveflow_runtime.Prelude.{
  ℕ, ◌+◌, ◌-◌, ◌≡◌, refl, replicate, false, true, not, none, some, [], ◌∷◌, ◌==◌,
}
use driveflow_runtime.Prelude.Result.{ok, throws, system_error, length_error, invalid_argument}
use driveflow_runtime.Net.Socket.{
  System, would_block, address, send_to, receive, try_receive, move_assign, move_construct,
}
use driveflow_runtime.Runtime.Receiver.Setup.{EpollReceiverConfig}
use driveflow_runtime.Runtime.Receiver.Create.{create_receiver}
use driveflow_runtime.Net.Socket.Owned.{IsSystem, one}
use driveflow_runtime.Runtime.Receiver.Owned.{owned, create_receiver-owned}

-- The epoll descriptor is 3, a socket 4, and the port 9999 is taken.
abbrev pub machine : System
machine = record {
  State = ℕ → ℕ;
  inet_pton = λ text. address 0;
  inet_ntop = λ ip. some [];
  socket = λ s. (some 4, λ y. s y + one 4 y);
  close = λ fd s y. s y - one fd y;
  bind = λ fd a s. (not (a.port == 9999), s);
  get_flags = λ fd s. (some 0, s);
  set_non_blocking = λ fd flags s. (true, s);
  send = λ fd bytes a s. (none, s);
  receive = λ fd size s. (would_block, s);
  get_name = λ fd s. (some (record { ip = 0; port = 9000 }), s);
  epoll_create = λ s. (some 3, λ y. s y + one 3 y);
  epoll_add = λ epoll fd index s. (true, s);
}

pub machine-IsSystem : IsSystem machine (λ s y. s y)
machine-IsSystem = record {
  socket = λ s y. refl;
  epoll_create = λ s y. refl;
  close = λ fd s y. refl;
  bind = λ fd a s y. refl;
  get_flags = λ fd s y. refl;
  set_flags = λ fd flags s y. refl;
  get_name = λ fd s y. refl;
  send = λ fd bytes a s y. refl;
  receive = λ fd size s y. refl;
  epoll_add = λ epoll fd index s y. refl;
}

abbrev config : EpollReceiverConfig
config = record {
  listen_endpoints =
      record { address = []; port = 9000 } ∷ record { address = []; port = 9999 } ∷ [];
  max_datagrams_per_listener_per_poll = 64;
}

-- The second endpoint cannot be bound.
config_refused : (create_receiver machine config (λ y. 0)).0 ≡ throws (system_error "bind")
unfolding create_receiver
config_refused = refl

create_receiver-owned_example :
    (create_receiver machine config (λ y. 0)).1 4
    ≡ 0 + owned (create_receiver machine config (λ y. 0)).0 4
create_receiver-owned_example =
    create_receiver-owned machine (λ s y. s y) config (λ y. 0) 4 machine-IsSystem

-- A payload over the limit is not sent, and a full buffer size is not asked for.
too_long :
    (send_to machine 4 (replicate 65508 0) (record { address = []; port = 9000 }) (λ y. 0)).0
    ≡ throws (length_error "UDP payload exceeds the IPv4 limit")
unfolding send_to
too_long = refl

too_large :
    (receive machine 4 65508 (λ y. 0)).0
    ≡ throws (invalid_argument "UDP receive size must be between 1 and 65507 bytes")
unfolding receive
too_large = refl

-- Nothing waits.
nothing : (try_receive machine 4 64 (λ y. 0)).0 ≡ ok none
unfolding try_receive
nothing = refl

-- The socket assigned to gives up its descriptor, and takes over the other's.
moved :
    (move_assign machine false (some 4) (move_construct machine (some 5)).0 (λ y. one 4 y)).0
    ≡ (some 5, none)
unfolding move_assign move_construct
moved = refl

given_up : (move_assign machine false (some 4) (some 5) (λ y. one 4 y)).1 4 ≡ 0
unfolding move_assign
given_up = refl
