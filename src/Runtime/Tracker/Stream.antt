-- ===== src/Runtime/Tracker/Stream.antt =====
-- sensor_stream_tracker.cpp: the counters of a stream whose numbers only go up.
use driveflow_runtime.Prelude.{
  ℕ, ◌+◌, ◌-◌, ◌%◌, ◌^◌, ◌≤◌, ◌<◌, ◌≡◌, refl, sym, ap, subst, ◌∙◌, some, List, [], ◌∷◌, false,
  arith, leb, length,
}
use driveflow_runtime.Prelude.Result.{ok}
use driveflow_runtime.Runtime.Received.{
  ReceivedPacket, SensorSource, identify_sensor_source, increment,
}
use driveflow_runtime.Runtime.Tracker.Defs.{
  SourceState, SensorStreamMetrics, SensorStreamTracker, no_metrics, make_tracker, advance,
  advance_forward, find_state, admit, observe,
}
use driveflow_runtime.Runtime.Tracker.Table.{source_eq_refl, updated-source, find_state-put_self}

abbrev number : ReceivedPacket → ℕ
number p = p.packet.header.sequence_number

-- The tracker after a sequence of packets.
unfoldable pub observe_each : SensorStreamTracker → List ReceivedPacket → SensorStreamTracker
observe_each t [] = t
observe_each t (p ∷ rest) = observe_each (observe t p).0 rest

-- Packets of source `k` with 64-bit numbers, each greater than the one before, from `n` on, and by
-- less than half the range.
unfoldable pub GoesUp : SensorSource → ℕ → List ReceivedPacket → Type 0
GoesUp k n [] = Unit
GoesUp k n (p ∷ rest) =
    (identify_sensor_source p ≡ k)
    × (n < number p)
    × (number p < 2 ^ 64)
    × (number p - n < 2 ^ 63)
    × GoesUp k (number p) rest

-- The number of the last packet, or `n`.
unfoldable pub last_number : ℕ → List ReceivedPacket → ℕ
last_number n [] = n
last_number n (p ∷ rest) = last_number (number p) rest

-- What the counters say once `received` packets in a row have brought the number from `n` to `n'`.
record Accounts (m m' : SensorStreamMetrics) (received n n' : ℕ) : Type 0 where
  duplicates : m'.duplicate_observations ≡ m.duplicate_observations
  reordered : m'.reordered_observations ≡ m.reordered_observations
  untracked : m'.untracked_observations ≡ m.untracked_observations
  firsts : m'.first_observations ≡ m.first_observations
  missing : m'.missing_samples_inferred + received + n ≡ m.missing_samples_inferred + n'

advance-Accounts :
    (s : SourceState) (m : SensorStreamMetrics) (n : ℕ)
    → s.highest_sequence < n
    → n < 2 ^ 64
    → n - s.highest_sequence < 2 ^ 63
    → m.missing_samples_inferred ≤ s.highest_sequence
    → ((advance s m n).state.highest_sequence ≡ n)
      × Accounts m (advance s m n).metrics 1 s.highest_sequence n
unfolding advance advance_forward
advance-Accounts s m n up small near room = ground (arith, up, small, near, room, ahead)
  where
    ahead : (n + 2 ^ 64 - s.highest_sequence) % 2 ^ 64 ≡ n - s.highest_sequence
    ahead = omega arith

-- The tracker holds source `k`, with `n` its highest number.
record Follows (k : SensorSource) (n : ℕ) (t : SensorStreamTracker) : Type 0 where
  state : SourceState
  found : find_state k t.sources ≡ some state
  highest : state.highest_sequence ≡ n
  room : t.metrics.missing_samples_inferred ≤ n

observe-Accounts :
    (t : SensorStreamTracker) (p : ReceivedPacket) (n : ℕ)
    → Follows (identify_sensor_source p) n t
    → n < number p
    → number p < 2 ^ 64
    → number p - n < 2 ^ 63
    → Follows (identify_sensor_source p) (number p) (observe t p).0
      × Accounts t.metrics (observe t p).0.metrics 1 n (number p)
unfolding observe
observe-Accounts t p n f up small near =
    let seen = record t.metrics { packets_observed = increment t.metrics.packets_observed } in
    let (highest, a) =
      advance-Accounts f.state seen (number p) (omega (arith, f.highest)) small
        (omega (arith, f.highest)) (omega (arith, f.highest, f.room)) in
    rw (f.found, observe)
      (
        record {
          state = (advance f.state seen (number p)).state;
          found =
              find_state-put_self (identify_sensor_source p) t.sources f.state
                (advance f.state seen (number p)).state f.found
                (updated-source t p f.state f.found);
          highest = highest;
          room = omega (arith, a.missing, f.highest, f.room);
        },
        record {
          duplicates = a.duplicates;
          reordered = a.reordered;
          untracked = a.untracked;
          firsts = a.firsts;
          missing = omega (arith, a.missing, f.highest);
        },
      )

observe_each-Accounts :
    (k : SensorSource) (t : SensorStreamTracker) (n : ℕ) (packets : List ReceivedPacket)
    → Follows k n t
    → GoesUp k n packets
    → Accounts t.metrics (observe_each t packets).metrics (length packets) n (last_number n packets)
unfolding observe_each GoesUp last_number
observe_each-Accounts k t n [] f up = record {
  duplicates = refl;
  reordered = refl;
  untracked = refl;
  firsts = refl;
  missing = omega arith;
}
observe_each-Accounts k t n (p ∷ rest) f up =
    let step = observe-Accounts t p n (subst (λ j. Follows j n t) (sym up.0) f) up.1 up.2 up.3 in
    let a = step.1 in
    let later =
      observe_each-Accounts k (observe t p).0 (number p) rest
        (subst (λ j. Follows j (number p) (observe t p).0) up.0 step.0) up.4 in
    record {
      duplicates = later.duplicates ∙ a.duplicates;
      reordered = later.reordered ∙ a.reordered;
      untracked = later.untracked ∙ a.untracked;
      firsts = later.firsts ∙ a.firsts;
      missing = omega (arith, later.missing, a.missing);
    }

abbrev new_tracker : ℕ → SensorStreamTracker
new_tracker capacity = record { max_sources = capacity; sources = []; metrics = no_metrics }

abbrev one_first : SensorStreamMetrics
one_first = record no_metrics { streams_observed = 1; packets_observed = 1; first_observations = 1 }

make_tracker_new :
    (capacity : ℕ) (t : SensorStreamTracker)
    → make_tracker capacity ≡ ok t
    → (0 < capacity) × (t ≡ new_tracker capacity)
unfolding make_tracker
make_tracker_new capacity t made = ground (arith, made)

observe_first :
    (capacity : ℕ) (p : ReceivedPacket)
    → 0 < capacity
    → Follows (identify_sensor_source p) (number p) (observe (new_tracker capacity) p).0
      × ((observe (new_tracker capacity) p).0.metrics ≡ one_first)
unfolding observe admit find_state
observe_first capacity p pos =
    let room : leb capacity 0 ≡ false = ground arith in
    rw room (
      record {
        state = record {
          source = identify_sensor_source p;
          highest_sequence = number p;
          recent_sequences = 1;
        };
        found = rw source_eq_refl refl;
        highest = refl;
        room = omega arith;
      },
      refl,
    )

-- A new tracker that is given packets of one source only, with 64-bit numbers that go up, each time
-- by less than half the range, counts one of them as first and none as duplicate, reordered or
-- untracked, and the samples that it infers missing and the packets received are together as many
-- as the numbers from the first to the last one.
pub observe_each_complete :
    (capacity : ℕ) (t : SensorStreamTracker) (p : ReceivedPacket) (rest : List ReceivedPacket)
    → make_tracker capacity ≡ ok t
    → GoesUp (identify_sensor_source p) (number p) rest
    → let m = (observe_each t (p ∷ rest)).metrics in
      (m.first_observations ≡ 1)
      × (m.duplicate_observations ≡ 0)
      × (m.reordered_observations ≡ 0)
      × (m.untracked_observations ≡ 0)
      × (m.missing_samples_inferred + length (p ∷ rest)
          ≡ last_number (number p) rest + 1 - number p)
unfolding observe_each
observe_each_complete capacity t p rest made up =
    let (pos, new) = make_tracker_new capacity t made in
    let (follows, counted) =
      subst
        (λ u.
          Follows (identify_sensor_source p) (number p) (observe u p).0
          × ((observe u p).0.metrics ≡ one_first))
        (sym new) (observe_first capacity p pos) in
    let a =
      observe_each-Accounts (identify_sensor_source p) (observe t p).0 (number p) rest follows up in
    (
      a.firsts ∙ ap (λ m. m.first_observations) counted,
      a.duplicates ∙ ap (λ m. m.duplicate_observations) counted,
      a.reordered ∙ ap (λ m. m.reordered_observations) counted,
      a.untracked ∙ ap (λ m. m.untracked_observations) counted,
      omega (arith, a.missing, ap (λ m. m.missing_samples_inferred) counted),
    )
