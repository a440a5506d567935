-- ===== src/Runtime/Tracker/Accounting.antt =====
-- sensor_stream_tracker.cpp: what holds of the table and of the counters after every packet.
use driveflow_runtime.Prelude.{
  ℕ, ◌+◌, ◌-◌, ◌%◌, ◌^◌, ◌≤◌, ◌<◌, ◌≡◌, sym, ◌∙◌, inl, inr, [], ◌∷◌, arith, length, length-append,
  Option-cases,
}
use driveflow_runtime.Prelude.Result.{ok}
use driveflow_runtime.Runtime.Received.{
  ReceivedPacket, SensorSource, identify_sensor_source, increment,
}
use driveflow_runtime.Runtime.Tracker.Defs.{
  SourceState, SensorStreamMetrics, advance, advance_forward, advance_backward, find_state, admit,
  observe, SensorStreamTracker, make_tracker,
}
use driveflow_runtime.Runtime.Tracker.Table.{length-put_state}

-- The packets that the classes account for.
abbrev pub classified : SensorStreamMetrics → ℕ
classified m =
    m.first_observations + m.in_order_observations + m.gap_observations + m.duplicate_observations
    + m.reordered_observations + m.untracked_observations

-- The counters wrap at 64 bits, so the sums hold up to a multiple of 2 ^ 64.
pub record IsValid (t : SensorStreamTracker) : Type 0 where
  pub positive : 0 < t.max_sources
  pub bounded : length t.sources ≤ t.max_sources
  pub streams : t.metrics.streams_observed ≡ length t.sources % 2 ^ 64
  pub firsts : t.metrics.first_observations ≡ t.metrics.streams_observed
  pub accounted : t.metrics.packets_observed ≡ classified t.metrics % 2 ^ 64

pub make_tracker-IsValid : (n : ℕ) (t : SensorStreamTracker) → make_tracker n ≡ ok t → IsValid t
unfolding make_tracker
make_tracker-IsValid n t e = ground arith

-- A step of a known source moves one packet into one class.
record Counts (m m' : SensorStreamMetrics) : Type 0 where
  packets : m'.packets_observed ≡ m.packets_observed
  streams : m'.streams_observed ≡ m.streams_observed
  firsts : m'.first_observations ≡ m.first_observations
  one_more : classified m' % 2 ^ 64 ≡ (classified m + 1) % 2 ^ 64

forward-Counts :
    (s : SourceState) (m : SensorStreamMetrics) (n d : ℕ)
    → Counts m (advance_forward s m n d).metrics
unfolding advance_forward
forward-Counts s m n d = ground arith

backward-Counts :
    (s : SourceState) (m : SensorStreamMetrics) (n d : ℕ)
    → Counts m (advance_backward s m n d).metrics
unfolding advance_backward
backward-Counts s m n d = ground arith

advance-Counts :
    (s : SourceState) (m : SensorStreamMetrics) (n : ℕ) → Counts m (advance s m n).metrics
unfolding advance
advance-Counts s m n = ground (
  arith,
  forward-Counts s m n ((n + 2 ^ 64 - s.highest_sequence) % 2 ^ 64),
  backward-Counts s m n ((s.highest_sequence + 2 ^ 64 - n) % 2 ^ 64),
)

module _ (t : SensorStreamTracker) (p : ReceivedPacket) (v : IsValid t) where
  abbrev counted : SensorStreamMetrics
  counted = record t.metrics { packets_observed = increment t.metrics.packets_observed }

  admit-IsValid :
      (source : SensorSource) (n : ℕ) → IsValid (admit (record t { metrics = counted }) source n).0
  unfolding admit
  admit-IsValid source n = ground (
    arith,
    v.positive,
    v.bounded,
    v.streams,
    v.firsts,
    v.accounted,
    length-append t.sources
        (record { source = source; highest_sequence = n; recent_sequences = 1 } ∷ []),
  )

  -- From a valid tracker, every packet keeps the table within its capacity, one stream counted for each entry, and every
  -- packet counted in one class.
  pub observe-IsValid : IsValid (observe t p).0
  unfolding observe admit
  observe-IsValid = elim (Option-cases (find_state (identify_sensor_source p) t.sources)) [
    | inl new ↦
        rw (new, observe) (admit-IsValid (identify_sensor_source p) p.packet.header.sequence_number)
    | inr (s, e) ↦
        let c = advance-Counts s counted p.packet.header.sequence_number in
        rw (e, observe)
          (record {
            positive = v.positive;
            bounded = rw length-put_state v.bounded;
            streams = rw length-put_state (c.streams ∙ v.streams);
            firsts = c.firsts ∙ (v.firsts ∙ sym c.streams);
            accounted = omega (arith, c.packets, c.one_more, v.accounted);
          })
  ]
