-- ===== src/Runtime/Receiver/Setup.antt =====
-- epoll_receiver.hpp and epoll_receiver.cpp: the configuration of the receiver, what is checked of it
-- and of the timeout of a poll, and the poll with this check. `created` is the answer of epoll_create1.
use driveflow_runtime.Prelude.{
  ℕ, ◌-◌, ◌^◌, ◌||◌, not, List, ltb, ◌==◌, if◌then◌else◌, length, Option,
}
use driveflow_runtime.Prelude.Int.{ℤ, pos, leb_ℤ}
use driveflow_runtime.Prelude.Result.{Result, ok, throws, invalid_argument}
use driveflow_runtime.Net.{Ipv4Endpoint, ReceivedDatagram}
use driveflow_runtime.Runtime.Receiver.Defs.{EpollReceiver, EpollWait, Polled, poll}

pub record EpollReceiverConfig : Type 0 where
  pub listen_endpoints : List Ipv4Endpoint
  pub max_datagrams_per_listener_per_poll : ℕ

-- std::numeric_limits<int>::max()
abbrev pub int_max : ℕ
int_max = 2 ^ 31 - 1

unfoldable pub create_epoll : EpollReceiverConfig → Result ℕ → Result ℕ
create_epoll config created =
    if length config.listen_endpoints == 0
    then throws (invalid_argument "epoll receiver requires at least one listen endpoint")
    else if config.max_datagrams_per_listener_per_poll == 0
    then throws (invalid_argument "max datagrams per listener per poll must be greater than zero")
    else if ltb int_max (length config.listen_endpoints)
    then throws (invalid_argument "too many epoll listen endpoints")
    else created

-- The check at the head of `poll`.
unfoldable pub check_timeout : ℤ → Result (Unit {0})
check_timeout timeout =
    if not (leb_ℤ (pos 0) timeout) || not (leb_ℤ timeout (pos int_max))
    then throws (invalid_argument "epoll timeout must fit a non-negative int")
    else ok tt

module _ (Kernel : Type 0)
    (receive : Kernel → ℕ → Kernel × Result (Option (ReceivedDatagram × ℕ))) where
  -- `poll` as it is called, with its timeout.
  unfoldable pub poll_within : ℤ → EpollReceiver → EpollWait → Kernel → Polled Kernel receive
  poll_within timeout r answer k = elim (check_timeout timeout) [
    | throws e ↦ record { kernel = k; metrics = r.metrics; packets = throws e }
    | ok checked ↦ poll Kernel receive r answer k
  ]
