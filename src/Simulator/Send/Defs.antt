-- ===== src/Simulator/Send/Defs.antt =====
-- sensor_simulator.cpp: `wait_until_or_stop` and `send_batch`.
use driveflow_runtime.Prelude.{
  ℕ, zero, suc, ◌+◌, ◌-◌, ◌*◌, ◌%◌, ◌^◌, min, Bool, true, false, List, [], ◌∷◌, leb, if◌then◌else◌,
}
use driveflow_runtime.Prelude.Int.{ℤ, pos, negsuc, leb_ℤ}
use driveflow_runtime.Net.{Ipv4Endpoint}
use driveflow_runtime.Runtime.Received.{increment}
use driveflow_runtime.Simulator.Faults.{PendingPacket, InjectionBatch}
use driveflow_runtime.Simulator.World.{World, Outcome, finished, unfinished, ◌>>=◌, lift}

pub record SimulationSummary : Type 0 where
  pub packets_generated : ℕ
  pub packets_sent : ℕ
  pub packets_dropped : ℕ
  pub duplicate_packets_sent : ℕ
  pub reorder_events : ℕ
  pub delayed_packets : ℕ
  pub corrupted_packets_sent : ℕ

abbrev pub no_summary : SimulationSummary
no_summary = record {
  packets_generated = 0;
  packets_sent = 0;
  packets_dropped = 0;
  duplicate_packets_sent = 0;
  reorder_events = 0;
  delayed_packets = 0;
  corrupted_packets_sent = 0;
}

-- 10 milliseconds
abbrev pub stop_poll_interval : ℕ
stop_poll_interval = 10000000

-- A delay in milliseconds as nanoseconds; only a positive one is waited for.
abbrev pub delay_ns : ℤ → ℕ
delay_ns (pos milliseconds) = milliseconds * 1000000
delay_ns (negsuc n) = 0

abbrev pub count_sent : PendingPacket → SimulationSummary → SimulationSummary
count_sent packet s = record s {
  packets_sent = increment s.packets_sent;
  corrupted_packets_sent =
      if packet.corrupted then increment s.corrupted_packets_sent else s.corrupted_packets_sent;
}

module _ (w : World) where
  -- The loop of `wait_until_or_stop` on fuel: whether a stop was asked for, and the state after it.
  unfoldable pub wait_loop : ℕ → ℕ → w.State → Outcome (Bool × w.State)
  wait_loop zero deadline s = unfinished
  wait_loop (suc fuel) deadline s =
      let (stop, s') = w.stop_requested s in
      elim stop [
        | true ↦ finished (true, s')
        | false ↦ elim (leb deadline (w.time s')) [
          | true ↦ finished (false, s')
          | false ↦
              wait_loop fuel deadline
                (w.sleep_until (min (w.time s' + stop_poll_interval) deadline) s')
        ]
      ]

  -- Each round but the last sleeps, and so brings the clock on.
  unfoldable pub wait_until_or_stop : ℕ → w.State → Outcome (Bool × w.State)
  unfolding wait_loop
  wait_until_or_stop deadline s = wait_loop (suc (deadline - w.time s)) deadline s

  -- The second sending of a duplicated packet.
  unfoldable pub send_duplicate :
      PendingPacket
      → Ipv4Endpoint
      → SimulationSummary
      → w.State
      → Outcome (SimulationSummary × w.State)
  send_duplicate packet destination summary s =
      if packet.duplicate
      then (let (sent, s') = w.send_to packet.bytes destination s in
          lift sent >>= λ _.
          let counted = count_sent packet summary in
          finished (
            record counted { duplicate_packets_sent = increment counted.duplicate_packets_sent },
            s',
          ))
      else finished (summary, s)

  -- From `socket.send_to` to the end of the loop's body.
  unfoldable pub send_packet :
      PendingPacket
      → Ipv4Endpoint
      → SimulationSummary
      → w.State
      → Outcome (SimulationSummary × w.State)
  unfolding send_duplicate
  send_packet packet destination summary s =
      let (sent, s') = w.send_to packet.bytes destination s in
      lift sent >>= λ _. send_duplicate packet destination (count_sent packet summary) s'

  -- The delay of a packet; true where a stop was asked for meanwhile.
  unfoldable pub delay_packet :
      PendingPacket → SimulationSummary → w.State → Outcome (Bool × SimulationSummary × w.State)
  unfolding wait_until_or_stop
  delay_packet packet summary s =
      if leb_ℤ packet.delay (pos 0)
      then finished (false, summary, s)
      else (wait_until_or_stop (w.time s + delay_ns packet.delay) s >>= λ waited.
          let (stopped, s') = waited in
          finished
            (stopped, record summary { delayed_packets = increment summary.delayed_packets }, s'))

  -- The loop of `send_batch`: false where a stop was asked for.
  unfoldable pub send_packets :
      List PendingPacket
      → Ipv4Endpoint
      → SimulationSummary
      → w.State
      → Outcome (Bool × SimulationSummary × w.State)
  unfolding delay_packet send_packet
  send_packets [] destination summary s = finished (true, summary, s)
  send_packets (packet ∷ packets) destination summary s =
      let (stop, s') = w.stop_requested s in
      if stop
      then finished (false, summary, s')
      else (delay_packet packet summary s' >>= λ delayed.
          let (stopped, summary', t) = delayed in
          if stopped
          then finished (false, summary', t)
          else (send_packet packet destination summary' t >>= λ sent.
              let (summary'', t') = sent in send_packets packets destination summary'' t'))

  unfoldable pub send_batch :
      InjectionBatch
      → Ipv4Endpoint
      → SimulationSummary
      → w.State
      → Outcome (Bool × SimulationSummary × w.State)
  unfolding send_packets
  send_batch batch destination summary s =
      send_packets batch.packets destination summary s >>= λ sent.
      let (done, summary', s') = sent in
      finished (
        done,
        (if done
            then record summary' {
              reorder_events = (summary'.reorder_events + batch.reorder_events) % 2 ^ 64;
            }
            else summary'),
        s',
      )
