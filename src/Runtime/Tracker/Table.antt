-- ===== src/Runtime/Tracker/Table.antt =====
-- sensor_stream_tracker.cpp: `observe` on the whole table of sources.
use driveflow_runtime.Prelude.{
  ℕ, zero, suc, ◌+◌, ◌-◌, ◌^◌, ◌≤◌, ◌<◌, ◌≡◌, refl, inl, inr, true, false, List, [], ◌∷◌, ◌++◌,
  none, some, arith, if◌then◌else◌, Option-cases, length,
}
use driveflow_runtime.Prelude.Bits.{testbit, testbit-zero}
use driveflow_runtime.Net.{Ipv4Endpoint, endpoint_eq, text_eq-eq, text_eq_refl}
use driveflow_runtime.Runtime.Received.{
  ReceivedPacket, SensorSource, source_eq, identify_sensor_source, increment,
}
use driveflow_runtime.Runtime.Tracker.Defs.{
  SourceState, SensorStreamMetrics, first, untracked, Advance, advance, advance_forward,
  advance_backward, find_state, put_state, admit, observe, SensorStreamTracker,
}
use driveflow_runtime.Runtime.Tracker.History.{contains, History, remember, judge, Shows, bit}
use driveflow_runtime.Runtime.Tracker.Refine.{advance-remember}

endpoint_eq-eq : (a b : Ipv4Endpoint) → endpoint_eq a b ≡ true → a ≡ b
unfolding endpoint_eq
endpoint_eq-eq a b e = ground (arith, text_eq-eq a.address b.address)

endpoint_eq_refl : (a : Ipv4Endpoint) → endpoint_eq a a ≡ true
unfolding endpoint_eq
endpoint_eq_refl a = ground (arith, text_eq_refl a.address)

pub source_eq_refl : (a : SensorSource) → source_eq a a ≡ true
unfolding source_eq
source_eq_refl a =
    ground (arith, endpoint_eq_refl a.remote_endpoint, endpoint_eq_refl a.listener_endpoint)

-- Sources that are equal are equal to the same sources.
pub source_eq-cong : (a b c : SensorSource) → source_eq a b ≡ true → source_eq a c ≡ source_eq b c
unfolding source_eq
source_eq-cong a b c e = ground (
  arith,
  endpoint_eq-eq a.remote_endpoint b.remote_endpoint,
  endpoint_eq-eq a.listener_endpoint b.listener_endpoint,
)

pub advance-source :
    (s : SourceState) (m : SensorStreamMetrics) (n : ℕ) → (advance s m n).state.source ≡ s.source
unfolding advance advance_forward advance_backward
advance-source s m n = ground arith

find_state-source :
    (k : SensorSource) (xs : List SourceState) (s : SourceState)
    → find_state k xs ≡ some s
    → source_eq s.source k ≡ true
unfolding find_state
find_state-source k [] s e = cc
find_state-source k (x ∷ xs) s e = ground (arith, find_state-source k xs s)

pub find_state-put_self :
    (k : SensorSource) (xs : List SourceState) (s new : SourceState)
    → find_state k xs ≡ some s
    → source_eq new.source k ≡ true
    → find_state k (put_state k new xs) ≡ some new
unfolding find_state put_state
find_state-put_self k [] s new e same = cc
find_state-put_self k (x ∷ xs) s new e same = ground (arith, find_state-put_self k xs s new)

find_state-put_other :
    (k j : SensorSource) (xs : List SourceState) (new : SourceState)
    → source_eq new.source k ≡ true
    → source_eq k j ≡ false
    → find_state j (put_state k new xs) ≡ find_state j xs
unfolding find_state put_state
find_state-put_other k j [] new same differ = refl
find_state-put_other k j (x ∷ xs) new same differ = ground (
  arith,
  find_state-put_other k j xs new same differ,
  source_eq-cong new.source k j,
  source_eq-cong x.source k j,
)

find_state-append :
    (j : SensorSource) (xs : List SourceState) (s : SourceState)
    → find_state j (xs ++ s ∷ []) ≡ elim (find_state j xs) [
      | none ↦ if source_eq s.source j then some s else none
      | some x ↦ some x
    ]
unfolding find_state
find_state-append j [] s = refl
find_state-append j (x ∷ xs) s = ground (arith, find_state-append j xs s)

pub length-put_state :
    (k : SensorSource) (xs : List SourceState) (new : SourceState)
    → length (put_state k new xs) ≡ length xs
unfolding put_state
length-put_state k [] new = refl
length-put_state k (x ∷ xs) new = ground (arith, length-put_state k xs new)

-- A history with one number in it, one turn of the counter up, so that older numbers have a position.
abbrev pub first_history : ℕ → History
first_history n = record { top = 2 ^ 64 + n; seen = (2 ^ 64 + n) ∷ [] }

pub first-Shows :
    (source : SensorSource) (n : ℕ)
    → n < 2 ^ 64
    → Shows
        (first_history n)
        (record { source = source; highest_sequence = n; recent_sequences = 1 })
unfolding contains testbit
first-Shows source n small = record {
  highest = omega arith;
  room = omega arith;
  below = omega arith;
  top_seen = ground arith;
  window = first_window;
}
  where
    first_window :
        (k : ℕ) → k < 64 → testbit 1 k ≡ bit (contains (2 ^ 64 + n - k) ((2 ^ 64 + n) ∷ []))
    first_window zero h = ground arith
    first_window (suc k) h = ground (arith, testbit-zero k)

-- The table after the packet, where the packet's source is known.
abbrev pub updated : SensorStreamTracker → ReceivedPacket → SourceState → Advance
updated t p s =
    advance s (record t.metrics { packets_observed = increment t.metrics.packets_observed })
      p.packet.header.sequence_number

module _ (t : SensorStreamTracker) (p : ReceivedPacket) where
  abbrev source : SensorSource
  source = identify_sensor_source p

  abbrev number : ℕ
  number = p.packet.header.sequence_number

  pub updated-source :
      (s : SourceState)
      → find_state source t.sources ≡ some s
      → source_eq (updated t p s).state.source source ≡ true
  updated-source s e = rw (advance-source s _ number) (find_state-source source t.sources s e)

  -- A packet with a 64-bit number of a source that the table holds with history `h` is reported as the history judges
  -- it, and the table then holds the source with the number remembered.
  pub observe-judge :
      (s : SourceState) (h : History)
      → find_state source t.sources ≡ some s
      → Shows h s
      → number < 2 ^ 64
      → (s' : SourceState) × (find_state source (observe t p).0.sources ≡ some s')
        × Shows (remember h number) s'
        × ((observe t p).1 ≡ judge h number)
  unfolding observe
  observe-judge s h e shows small =
      let a =
        advance-remember h s
          (record t.metrics { packets_observed = increment t.metrics.packets_observed }) number
          shows small in
      (
        (updated t p s).state,
        rw (e, observe)
            (find_state-put_self source t.sources s (updated t p s).state e (updated-source s e)),
        a.0,
        rw (e, observe) a.1,
      )

  -- A packet with a 64-bit number of a new source, while there is room, is the first of its stream:
  -- the table then holds the source with the history of this number alone.
  pub observe_new :
      find_state source t.sources ≡ none
      → length t.sources < t.max_sources
      → number < 2 ^ 64
      → (s' : SourceState) × (find_state source (observe t p).0.sources ≡ some s')
        × Shows (first_history number) s'
        × ((observe t p).1.status ≡ first)
  unfolding observe admit
  observe_new e room small = (
    record { source = source; highest_sequence = number; recent_sequences = 1 },
    ground (
      arith,
      source_eq_refl source,
      find_state-append source t.sources
          (record { source = source; highest_sequence = number; recent_sequences = 1 }),
    ),
    first-Shows source number small,
    ground arith,
  )

  -- A full table takes no new source: the packet is untracked and counted as such, and no stream
  -- changes.
  pub observe_full :
      find_state source t.sources ≡ none
      → t.max_sources ≤ length t.sources
      → ((observe t p).1.status ≡ untracked)
        × ((observe t p).0.sources ≡ t.sources)
        × ((observe t p).0.metrics.untracked_observations
            ≡ increment t.metrics.untracked_observations)
  unfolding observe admit
  observe_full e full = ground arith

  -- Streams do not mix: a packet changes the state of no source but its own.
  pub observe_isolates :
      (j : SensorSource)
      → source_eq source j ≡ false
      → find_state j (observe t p).0.sources ≡ find_state j t.sources
  unfolding observe admit
  observe_isolates j differ = elim (Option-cases (find_state source t.sources)) [
    | inl new ↦ ground (
      arith,
      find_state-append j t.sources
          (record { source = source; highest_sequence = number; recent_sequences = 1 }),
    )
    | inr (s, e) ↦
        rw (e, observe)
          (find_state-put_other source j t.sources (updated t p s).state (updated-source s e)
            differ)
  ]
