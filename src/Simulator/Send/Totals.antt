-- ===== src/Simulator/Send/Totals.antt =====
-- sensor_simulator.cpp: what `send_batch` adds to the summary where no stop is asked for.
use driveflow_runtime.Prelude.{
  ℕ, suc, ◌+◌, ◌%◌, ◌^◌, ◌≡◌, refl, ◌∙◌, inl, inr, Bool-cases, true, false, List, [], ◌∷◌, arith,
  length,
}
use driveflow_runtime.Prelude.Int.{pos, leb_ℤ}
use driveflow_runtime.Net.{Ipv4Endpoint}
use driveflow_runtime.Simulator.Faults.{PendingPacket, InjectionBatch}
use driveflow_runtime.Simulator.World.{World, IsSteady, IsQuiet, finished}
use driveflow_runtime.Simulator.Send.Defs.{
  SimulationSummary, delay_packet, send_duplicate, send_packet, send_packets, send_batch, delay_ns,
  count_sent,
}
use driveflow_runtime.Simulator.Send.Wait.{wait_until_or_stop-quiet}

-- From `a` to `b` the summary counts `n` packets sent, not counting second sendings.
pub record Sends (n : ℕ) (a b : SimulationSummary) : Type 0 where
  pub generated : b.packets_generated ≡ a.packets_generated
  pub dropped : b.packets_dropped ≡ a.packets_dropped
  pub sent :
      (b.packets_sent + a.duplicate_packets_sent) % 2 ^ 64
      ≡ (a.packets_sent + n + b.duplicate_packets_sent) % 2 ^ 64

module _ (w : World) (steady : IsSteady w) (quiet : IsQuiet w) where
  delay_packet-Sends :
      (packet : PendingPacket) (a : SimulationSummary) (s : w.State)
      → (b : SimulationSummary) × ((s' : w.State) × ((delay_packet w packet a s
              ≡ finished (false, b, s'))
            × Sends 0 a b))
  unfolding delay_packet
  delay_packet-Sends packet a s = elim (Bool-cases (leb_ℤ packet.delay (pos 0))) [
    | inl none_needed ↦
        (a, (s, (rw none_needed, record { generated = refl; dropped = refl; sent = omega arith })))
    | inr needed ↦
        let (s', e) =
          wait_until_or_stop-quiet w steady quiet (w.time s + delay_ns packet.delay) s in
        (
          record a { delayed_packets = (a.delayed_packets + 1) % 2 ^ 64 },
          (s', (rw (needed, e), record { generated = refl; dropped = refl; sent = omega arith })),
        )
  ]

  send_packet-Sends :
      (packet : PendingPacket) (e : Ipv4Endpoint) (a : SimulationSummary) (s : w.State)
      → (b : SimulationSummary) × ((s' : w.State) × ((send_packet w packet e a s ≡ finished (b, s'))
            × Sends 1 a b))
  unfolding send_packet send_duplicate
  send_packet-Sends packet e a s =
      let s' = (w.send_to packet.bytes e s).1 in
      let counted = count_sent packet a in
      elim (Bool-cases packet.duplicate) [
        | inl twice ↦
            let again = count_sent packet counted in
            (
              record again { duplicate_packets_sent = (again.duplicate_packets_sent + 1) % 2 ^ 64 },
              (
                (w.send_to packet.bytes e s').1,
                (
                  rw (quiet.delivered packet.bytes e s, twice, quiet.delivered packet.bytes e s'),
                  record { generated = refl; dropped = refl; sent = omega arith },
                ),
              ),
            )
        | inr once ↦ (
          counted,
          (
            s',
            (
              rw (quiet.delivered packet.bytes e s, once),
              record { generated = refl; dropped = refl; sent = omega arith },
            ),
          ),
        )
      ]

  Sends-trans :
      (m n k : ℕ) (a b c : SimulationSummary) → k ≡ m + n → Sends m a b → Sends n b c → Sends k a c
  Sends-trans m n k a b c e x y = record {
    generated = y.generated ∙ x.generated;
    dropped = y.dropped ∙ x.dropped;
    sent = omega (arith, e, x.sent, y.sent);
  }

  send_packets-Sends :
      (packets : List PendingPacket) (e : Ipv4Endpoint) (a : SimulationSummary) (s : w.State)
      → (b : SimulationSummary) × ((s' : w.State) × ((send_packets w packets e a s
              ≡ finished (true, b, s'))
            × Sends (length packets) a b))
  unfolding send_packets
  send_packets-Sends [] e a s =
      (a, (s, (refl, record { generated = refl; dropped = refl; sent = omega arith })))
  send_packets-Sends (packet ∷ packets) e a s =
      let (b, (t, (waited, delayed))) = delay_packet-Sends packet a (w.stop_requested s).1 in
      let (c, (t', (sent, one))) = send_packet-Sends packet e b t in
      let (d, (t'', (rest, more))) = send_packets-Sends packets e c t' in
      (
        d,
        (
          t'',
          (
            rw (quiet.never_stopped s, waited, sent, rest),
            Sends-trans 1 (length packets) (suc (length packets)) a c d (omega arith)
                (Sends-trans 0 1 1 a b c (omega arith) delayed one) more,
          ),
        ),
      )

  -- In a run without a stop in which the socket works, sending a batch ends, with each packet of it
  -- sent, and sent again where it is to be duplicated: up to 2 ^ 64 the packets sent grow by the
  -- packets of the batch and by as many as the duplicates sent grow by.
  pub send_batch-Sends :
      (batch : InjectionBatch) (e : Ipv4Endpoint) (a : SimulationSummary) (s : w.State)
      → (b : SimulationSummary) × ((s' : w.State) × ((send_batch w batch e a s
              ≡ finished (true, b, s'))
            × Sends (length batch.packets) a b))
  unfolding send_batch
  send_batch-Sends batch e a s =
      let (b, (s', (sent, more))) = send_packets-Sends batch.packets e a s in
      (
        record b { reorder_events = (b.reorder_events + batch.reorder_events) % 2 ^ 64 },
        (
          s',
          (
            rw sent,
            record { generated = more.generated; dropped = more.dropped; sent = more.sent },
          ),
        ),
      )
