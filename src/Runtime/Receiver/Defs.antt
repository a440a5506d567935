-- ===== src/Runtime/Receiver/Defs.antt =====
-- epoll_receiver.cpp: `poll` and its counters. The kernel is a parameter: `Kernel` is its state,
-- the result of epoll_wait is an argument of `poll`, and `receive` is what the non-blocking receive
-- on the socket of a listener does, with the time read from the steady clock after it.
use driveflow_runtime.Prelude.{
  ℕ, zero, suc, Bool, not, Option, none, some, List, [], ◌∷◌, ◌++◌, leb, if◌then◌else◌, length,
  get_or,
}
use driveflow_runtime.Prelude.Result.{Result, ok, throws, runtime_error, system_error}
use driveflow_runtime.Net.{Ipv4Endpoint, ReceivedDatagram}
use driveflow_runtime.Protocol.Packet.{Packet, decode_packet}
use driveflow_runtime.Runtime.Received.{ReceivedPacket, increment}

pub record ReceiverMetrics : Type 0 where
  pub epoll_wakeups : ℕ
  pub datagrams_received : ℕ
  pub packets_accepted : ℕ
  pub packets_rejected : ℕ

-- `EpollReceiver::Impl`; a listener is its local endpoint, its socket is the kernel's.
pub record EpollReceiver : Type 0 where
  pub max_datagrams_per_listener_per_poll : ℕ
  pub listeners : List Ipv4Endpoint
  pub metrics : ReceiverMetrics

-- `epoll_event`: whether EPOLLIN is among the events, and the data stored with the listener.
pub record EpollEvent : Type 0 where
  pub readable : Bool
  pub listener_index : ℕ

-- What epoll_wait returns: an interruption (EINTR), another error, or the events.
pub data EpollWait : Type 0 where
  interrupted failed : EpollWait
  ready : List EpollEvent → EpollWait

abbrev pub no_endpoint : Ipv4Endpoint
no_endpoint = record { address = []; port = 0 }

module _ (Kernel : Type 0)
    (receive : Kernel → ℕ → Kernel × Result (Option (ReceivedDatagram × ℕ))) where
  -- The state after a part of `poll`, and the packets gathered, or the exception.
  pub record Polled : Type 0 where
    pub kernel : Kernel
    pub metrics : ReceiverMetrics
    pub packets : Result (List ReceivedPacket)

  -- The body of the inner loop for a datagram received.
  unfoldable pub accept_datagram :
      Ipv4Endpoint
      → ReceivedDatagram
      → ℕ
      → Option Packet
      → ReceiverMetrics
      → List ReceivedPacket
      → ReceiverMetrics × List ReceivedPacket
  accept_datagram listener datagram time none m packets = (
    record m {
      datagrams_received = increment m.datagrams_received;
      packets_rejected = increment m.packets_rejected;
    },
    packets,
  )
  accept_datagram listener datagram time (some packet) m packets = (
    record m {
      datagrams_received = increment m.datagrams_received;
      packets_accepted = increment m.packets_accepted;
    },
    packets
        ++ record {
          packet = packet;
          source = datagram.source;
          listener = listener;
          receive_timestamp_ns = time;
        }
          ∷ [],
  )

  -- The body of the inner loop for what the receive gives; `next` is the rest of the loop.
  unfoldable pub after_receive :
      (Kernel → ReceiverMetrics → List ReceivedPacket → Polled)
      → Ipv4Endpoint
      → ReceiverMetrics
      → List ReceivedPacket
      → Kernel
      → Result (Option (ReceivedDatagram × ℕ))
      → Polled
  unfolding accept_datagram
  after_receive next listener m packets k (throws e) = record {
    kernel = k;
    metrics = m;
    packets = throws e;
  }
  after_receive next listener m packets k (ok none) = record {
    kernel = k;
    metrics = m;
    packets = ok packets;
  }
  after_receive next listener m packets k (ok (some (datagram, time))) =
      let (m', packets') =
        accept_datagram listener datagram time (decode_packet datagram.bytes).packet m packets in
      next k m' packets'

  -- The inner loop, with `left` rounds to go.
  unfoldable pub drain :
      ℕ → ℕ → Ipv4Endpoint → Kernel → ReceiverMetrics → List ReceivedPacket → Polled
  unfolding after_receive
  drain zero index listener k m packets = record { kernel = k; metrics = m; packets = ok packets }
  drain (suc left) index listener k m packets =
      after_receive (drain left index listener) listener m packets (receive k index).0
        (receive k index).1

  -- An exception in the inner loop leaves the loop over the events; `next` is the rest of it.
  unfoldable pub after_drain :
      (Kernel → ReceiverMetrics → List ReceivedPacket → Polled)
      → Kernel
      → ReceiverMetrics
      → Result (List ReceivedPacket)
      → Polled
  after_drain next k m (throws e) = record { kernel = k; metrics = m; packets = throws e }
  after_drain next k m (ok packets) = next k m packets

  -- The body of the loop over the events.
  unfoldable pub handle_event :
      EpollReceiver
      → (Kernel → ReceiverMetrics → List ReceivedPacket → Polled)
      → EpollEvent
      → Kernel
      → ReceiverMetrics
      → List ReceivedPacket
      → Polled
  unfolding drain after_drain
  handle_event r next event k m packets =
      let drained =
        drain r.max_datagrams_per_listener_per_poll event.listener_index
          (get_or r.listeners event.listener_index no_endpoint) k m packets in
      if not event.readable
      then next k m packets
      else if leb (length r.listeners) event.listener_index
      then record {
        kernel = k;
        metrics = m;
        packets = throws (runtime_error "epoll returned an unknown listener");
      }
      else after_drain next drained.kernel drained.metrics drained.packets

  unfoldable pub poll_events :
      EpollReceiver → List EpollEvent → Kernel → ReceiverMetrics → List ReceivedPacket → Polled
  unfolding handle_event
  poll_events r [] k m packets = record { kernel = k; metrics = m; packets = ok packets }
  poll_events r (event ∷ events) k m packets =
      handle_event r (poll_events r events) event k m packets

  unfoldable pub poll : EpollReceiver → EpollWait → Kernel → Polled
  unfolding poll_events
  poll r interrupted k = record { kernel = k; metrics = r.metrics; packets = ok [] }
  poll r failed k = record {
    kernel = k;
    metrics = r.metrics;
    packets = throws (system_error "epoll_wait");
  }
  poll r (ready []) k = record { kernel = k; metrics = r.metrics; packets = ok [] }
  poll r (ready (event ∷ events)) k =
      poll_events r (event ∷ events) k
        (record r.metrics { epoll_wakeups = increment r.metrics.epoll_wakeups }) []
