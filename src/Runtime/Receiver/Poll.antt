-- ===== src/Runtime/Receiver/Poll.antt =====
-- epoll_receiver.cpp: the counters agree after every poll, and what a poll returns.
use driveflow_runtime.Prelude.{
  ℕ, zero, suc, ◌+◌, ◌%◌, ◌^◌, ◌≡◌, ◌<◌, refl, Bool, true, false, not, if◌then◌else◌, Option, none,
  some, List, [], ◌∷◌, arith, leb, length, get_or, length-append, All, All-append,
}
use driveflow_runtime.Prelude.Result.{Result, ok, throws}
use driveflow_runtime.Net.{Ipv4Endpoint, ReceivedDatagram}
use driveflow_runtime.Protocol.Packet.{Packet, decode_packet}
use driveflow_runtime.Runtime.Received.{ReceivedPacket}
use driveflow_runtime.Runtime.Receiver.Defs.{
  ReceiverMetrics, EpollReceiver, EpollEvent, EpollWait, interrupted, failed, ready, no_endpoint,
  Polled, accept_datagram, after_receive, drain, after_drain, handle_event, poll_events, poll,
}

-- Each datagram received was accepted or rejected (up to 2 ^ 64).
abbrev pub Accounted : ReceiverMetrics → Type 0
Accounted m = m.datagrams_received ≡ (m.packets_accepted + m.packets_rejected) % 2 ^ 64

-- The packet is what the decoder makes of some bytes.
abbrev pub Decoded : ReceivedPacket → Type 0
Decoded p = (bytes : List ℕ) × ((decode_packet bytes).packet ≡ some p.packet)

-- The packets are those accepted since the counter stood at `before`.
pub record Reports (before : ℕ) (m : ReceiverMetrics) (packets : List ReceivedPacket) : Type 0 where
  pub accounted : Accounted m
  pub counted : m.packets_accepted ≡ (before + length packets) % 2 ^ 64
  pub decoded : All Decoded packets

abbrev pub SoundResult : ℕ → ReceiverMetrics → Result (List ReceivedPacket) → Type 0
SoundResult before m (ok packets) = Reports before m packets
SoundResult before m (throws e) = Accounted m

module _ (Kernel : Type 0) (receive : Kernel → ℕ → Kernel × Result (Option (ReceivedDatagram × ℕ)))
    (before : ℕ) where
  abbrev Sound : Polled Kernel receive → Type 0
  Sound d = SoundResult before d.metrics d.packets

  abbrev SoundNext :
      (Kernel → ReceiverMetrics → List ReceivedPacket → Polled Kernel receive) → Type 0
  SoundNext next =
      (k : Kernel) (m : ReceiverMetrics) (packets : List ReceivedPacket)
      → Reports before m packets
      → Sound (next k m packets)

  accept_datagram-Reports :
      (listener : Ipv4Endpoint) (datagram : ReceivedDatagram) (time : ℕ) (packet : Option Packet)
      (m : ReceiverMetrics) (packets : List ReceivedPacket)
      → (decode_packet datagram.bytes).packet ≡ packet
      → Reports before m packets
      → Reports before
          (accept_datagram Kernel receive listener datagram time packet m packets).0
          (accept_datagram Kernel receive listener datagram time packet m packets).1
  unfolding accept_datagram
  accept_datagram-Reports listener datagram time none m packets e v = record {
    accounted = omega (arith, v.accounted);
    counted = v.counted;
    decoded = v.decoded;
  }
  accept_datagram-Reports listener datagram time (some p) m packets e v = record {
    accounted = omega (arith, v.accounted);
    counted = omega (arith, v.counted, length-append packets (arrived ∷ []));
    decoded = All-append Decoded packets (arrived ∷ []) v.decoded ((datagram.bytes, e), tt);
  }
    where
      arrived : ReceivedPacket
      arrived = record {
        packet = p;
        source = datagram.source;
        listener = listener;
        receive_timestamp_ns = time;
      }

  after_receive-Sound :
      (next : Kernel → ReceiverMetrics → List ReceivedPacket → Polled Kernel receive)
      (listener : Ipv4Endpoint) (m : ReceiverMetrics) (packets : List ReceivedPacket) (k : Kernel)
      (received : Result (Option (ReceivedDatagram × ℕ)))
      → SoundNext next
      → Reports before m packets
      → Sound (after_receive Kernel receive next listener m packets k received)
  unfolding after_receive
  after_receive-Sound next listener m packets k (throws e) sound v = v.accounted
  after_receive-Sound next listener m packets k (ok none) sound v = v
  after_receive-Sound next listener m packets k (ok (some (datagram, time))) sound v = sound k _ _ (
      accept_datagram-Reports listener datagram time (decode_packet datagram.bytes).packet m packets
        refl v)

  drain-Sound :
      (left index : ℕ) (listener : Ipv4Endpoint)
      → SoundNext (drain Kernel receive left index listener)
  unfolding drain
  drain-Sound zero index listener k m packets v = v
  drain-Sound (suc left) index listener k m packets v =
      after_receive-Sound (drain Kernel receive left index listener) listener m packets
        (receive k index).0 (receive k index).1 (drain-Sound left index listener) v

  after_drain-Sound :
      (next : Kernel → ReceiverMetrics → List ReceivedPacket → Polled Kernel receive) (k : Kernel)
      (m : ReceiverMetrics) (drained : Result (List ReceivedPacket))
      → SoundNext next
      → SoundResult before m drained
      → Sound (after_drain Kernel receive next k m drained)
  unfolding after_drain
  after_drain-Sound next k m (throws e) sound v = v
  after_drain-Sound next k m (ok packets) sound v = sound k m packets v

  if-Sound :
      (b : Bool) (x y : Polled Kernel receive) → Sound x → Sound y → Sound (if b then x else y)
  if-Sound true x y sx sy = sx
  if-Sound false x y sx sy = sy

  handle_event-Sound :
      (r : EpollReceiver)
      (next : Kernel → ReceiverMetrics → List ReceivedPacket → Polled Kernel receive)
      (event : EpollEvent)
      → SoundNext next
      → SoundNext (handle_event Kernel receive r next event)
  unfolding handle_event
  handle_event-Sound r next event sound k m packets v =
      if-Sound (not event.readable) _ _ (sound k m packets v) (
        if-Sound (leb (length r.listeners) event.listener_index) _ _ v.accounted (
          after_drain-Sound next _ _ _ sound (
            drain-Sound r.max_datagrams_per_listener_per_poll event.listener_index
              (get_or r.listeners event.listener_index no_endpoint) k m packets v)))

  poll_events-Sound :
      (r : EpollReceiver) (events : List EpollEvent)
      → SoundNext (poll_events Kernel receive r events)
  unfolding poll_events
  poll_events-Sound r [] k m packets v = v
  poll_events-Sound r (event ∷ events) k m packets v =
      handle_event-Sound r (poll_events Kernel receive r events) event (poll_events-Sound r events)
        k m packets v

-- Whatever epoll_wait and the sockets give, a poll of a receiver whose counters agree keeps them in
-- agreement (up to 2 ^ 64), also where it throws; the packets that it returns are as many as the
-- accepted ones were counted up by, and each is what the decoder makes of some bytes.
pub poll-SoundResult :
    (Kernel : Type 0) (receive : Kernel → ℕ → Kernel × Result (Option (ReceivedDatagram × ℕ)))
    (r : EpollReceiver) (wait : EpollWait) (k : Kernel)
    → Accounted r.metrics
    → r.metrics.packets_accepted < 2 ^ 64
    → SoundResult r.metrics.packets_accepted
        (poll Kernel receive r wait k).metrics
        (poll Kernel receive r wait k).packets
unfolding poll
poll-SoundResult Kernel receive r interrupted k a lt = record {
  accounted = a;
  counted = omega (arith, lt);
  decoded = tt;
}
poll-SoundResult Kernel receive r failed k a lt = a
poll-SoundResult Kernel receive r (ready []) k a lt = record {
  accounted = a;
  counted = omega (arith, lt);
  decoded = tt;
}
poll-SoundResult Kernel receive r (ready (event ∷ events)) k a lt =
    poll_events-Sound Kernel receive r.metrics.packets_accepted r (event ∷ events) k _ []
      (record { accounted = a; counted = omega (arith, lt); decoded = tt })
