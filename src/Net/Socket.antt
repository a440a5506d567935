-- ===== src/Net/Socket.antt =====
-- src/net/udp_socket.cpp: UdpSocket over the system's calls, which are a parameter. A descriptor that
-- goes out of scope with an exception is closed, as the destructor does. The message of a bad address
-- stands without the address.
pub mod Owned
use Prim.Native.String.{String}
use driveflow_runtime.Prelude.{
  ℕ, Bool, true, false, ◌||◌, Option, none, some, List, ltb, ◌==◌, if◌then◌else◌, length, take,
}
use driveflow_runtime.Prelude.Result.{
  Result, ok, throws, invalid_argument, length_error, runtime_error, system_error,
}
use driveflow_runtime.Net.{Text, Ipv4Endpoint, ReceivedDatagram}

-- sockaddr_in
pub record Address : Type 0 where
  pub ip : ℕ
  pub port : ℕ

-- What inet_pton and recvmsg give.
pub data Parsed : Type 0 where
  address : ℕ → Parsed
  not_an_address failed : Parsed

pub data Received : Type 0 where
  would_block error : Received
  message : List ℕ → (size : ℕ) → (truncated : Bool) → Address → Received

-- The system's calls: a call that can fail gives none or false where it does.
pub record System : Type 1 where
  pub State : Type 0
  pub inet_pton : Text → Parsed
  pub inet_ntop : ℕ → Option Text
  pub socket : State → Option ℕ × State
  pub close : ℕ → State → State
  pub bind : ℕ → Address → State → Bool × State
  pub get_flags : ℕ → State → Option ℕ × State
  pub set_non_blocking : ℕ → ℕ → State → Bool × State
  pub send : ℕ → List ℕ → Address → State → Option ℕ × State
  pub receive : ℕ → ℕ → State → Received × State
  pub get_name : ℕ → State → Option Address × State
  pub epoll_create : State → Option ℕ × State
  pub epoll_add : ℕ → ℕ → ℕ → State → Bool × State

abbrev pub max_udp_payload_size : ℕ
max_udp_payload_size = 65507

module _ (system : System) where
  -- A call that changes the state of the system and returns or throws.
  abbrev pub Call : Type 0 → Type 0
  Call A = system.State → Result A × system.State

  abbrev pub after :
      {A B : Type 0} → Result A × system.State → (A → Call B) → Result B × system.State
  after (Result.ok a, s) next = next a s
  after (Result.throws e, s) next = (throws e, s)

  -- A descriptor that is closed where the rest of its scope throws.
  abbrev pub guarded : {A : Type 0} → ℕ → Result A × system.State → Result A × system.State
  guarded fd (Result.ok a, s) = (ok a, s)
  guarded fd (Result.throws e, s) = (throws e, system.close fd s)

  -- A socket that goes out of scope, however the scope ends.
  abbrev pub closing : {A : Type 0} → ℕ → Result A × system.State → Result A × system.State
  closing fd (r, s) = (r, system.close fd s)

  abbrev pub checked : Bool × system.State → String → Result (Unit {0}) × system.State
  checked (true, s) operation = (ok tt, s)
  checked (false, s) operation = (throws (system_error operation), s)

  abbrev pub given : {A : Type 0} → Option A × system.State → String → Result A × system.State
  given (some a, s) operation = (ok a, s)
  given (none, s) operation = (throws (system_error operation), s)

  abbrev address_of : ℕ → Parsed → Result Address
  address_of port (address ip) = ok (record { ip = ip; port = port })
  address_of port not_an_address = throws (invalid_argument "invalid IPv4 address")
  address_of port failed = throws (system_error "inet_pton")

  unfoldable pub to_sockaddr : Ipv4Endpoint → Result Address
  to_sockaddr endpoint = address_of endpoint.port (system.inet_pton endpoint.address)

  abbrev endpoint_of : ℕ → Option Text → Result Ipv4Endpoint
  endpoint_of port none = throws (system_error "inet_ntop")
  endpoint_of port (some text) = ok (record { address = text; port = port })

  unfoldable pub from_sockaddr : Address → Result Ipv4Endpoint
  from_sockaddr a = endpoint_of a.port (system.inet_ntop a.ip)

  unfoldable pub open_socket : Call ℕ
  open_socket s = given (system.socket s) "socket"

  unfoldable pub bind_to : Ipv4Endpoint → Call ℕ
  unfolding open_socket to_sockaddr
  bind_to local_endpoint s = after (open_socket s) λ fd s1. guarded fd (
      after (to_sockaddr local_endpoint, s1)
        λ a s2. after (checked (system.bind fd a s2) "bind") λ _ s3. (ok fd, s3))

  unfoldable pub set_non_blocking : ℕ → Call (Unit {0})
  set_non_blocking fd s =
      after (given (system.get_flags fd s) "fcntl(F_GETFL)")
        λ flags s1. checked (system.set_non_blocking fd flags s1) "fcntl(F_SETFL)"

  unfoldable pub local_endpoint : ℕ → Call Ipv4Endpoint
  unfolding from_sockaddr
  local_endpoint fd s =
      after (given (system.get_name fd s) "getsockname") λ a s1. (from_sockaddr a, s1)

  unfoldable pub send_to : ℕ → List ℕ → Ipv4Endpoint → Call (Unit {0})
  unfolding to_sockaddr
  send_to fd bytes destination s =
      if ltb max_udp_payload_size (length bytes)
      then (throws (length_error "UDP payload exceeds the IPv4 limit"), s)
      else (after (to_sockaddr destination, s)
          λ a s1. after (given (system.send fd bytes a s1) "sendto") λ sent s2.
            if sent == length bytes
            then (ok tt, s2)
            else (throws (runtime_error "sendto returned a partial UDP datagram"), s2))

  unfoldable pub after_recvmsg :
      ℕ → Bool → Received → system.State → Result (Option ReceivedDatagram) × system.State
  unfolding from_sockaddr
  after_recvmsg maximum_size return_would_block would_block s =
      if return_would_block then (ok none, s) else (throws (system_error "recvmsg"), s)
  after_recvmsg maximum_size return_would_block error s = (throws (system_error "recvmsg"), s)
  after_recvmsg maximum_size return_would_block (message bytes size truncated source) s =
      if truncated || ltb maximum_size size
      then (throws (length_error "received UDP datagram exceeds the configured buffer"), s)
      else (after (from_sockaddr source, s)
          λ endpoint s1. (ok (some (record { bytes = take size bytes; source = endpoint })), s1))

  unfoldable pub receive_datagram : ℕ → ℕ → Bool → Call (Option ReceivedDatagram)
  unfolding after_recvmsg
  receive_datagram fd maximum_size return_would_block s =
      if maximum_size == 0 || ltb max_udp_payload_size maximum_size
      then (throws (invalid_argument "UDP receive size must be between 1 and 65507 bytes"), s)
      else after_recvmsg maximum_size return_would_block (system.receive fd maximum_size s).0
          (system.receive fd maximum_size s).1

  unfoldable pub try_receive : ℕ → ℕ → Call (Option ReceivedDatagram)
  unfolding receive_datagram
  try_receive fd maximum_size s = receive_datagram fd maximum_size true s

  -- `*datagram`. Without the flag `receive_datagram` never gives none, so that the second case does
  -- not arise.
  abbrev pub emptied :
      Result (Option ReceivedDatagram) × system.State → Result ReceivedDatagram × system.State
  emptied (Result.ok (some datagram), s) = (ok datagram, s)
  emptied (Result.ok none, s) = (throws (runtime_error "no datagram"), s)
  emptied (Result.throws e, s) = (throws e, s)

  unfoldable pub receive : ℕ → ℕ → Call ReceivedDatagram
  unfolding receive_datagram
  receive fd maximum_size s = emptied (receive_datagram fd maximum_size false s)

  -- A `UdpSocket` holds a descriptor, or none where it was moved from.
  unfoldable pub close_socket : Option ℕ → system.State → system.State
  close_socket none s = s
  close_socket (some fd) s = system.close fd s

  -- The descriptor of the new socket, and what the old one keeps.
  unfoldable pub move_construct : Option ℕ → Option ℕ × Option ℕ
  move_construct other = (other, none)

  -- The two sockets after the assignment; `same` is the test for one and the same socket.
  unfoldable pub move_assign :
      Bool → Option ℕ → Option ℕ → system.State → (Option ℕ × Option ℕ) × system.State
  unfolding close_socket
  move_assign same this other s =
      if same then ((this, this), s) else ((other, none), close_socket this s)
