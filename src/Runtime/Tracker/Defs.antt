-- ===== src/Runtime/Tracker/Defs.antt =====
-- src/runtime/sensor_stream_tracker.cpp: the state and `SensorStreamTracker::observe`.
use driveflow_runtime.Prelude.{
  ℕ, ◌+◌, ◌-◌, ◌*◌, ◌%◌, ◌^◌, bit_and, bit_or, not, Option, none, some, List, [], ◌∷◌, ◌++◌, ltb,
  leb, ◌==◌, if◌then◌else◌, length,
}
use driveflow_runtime.Prelude.Result.{Result, ok, throws, invalid_argument}
use driveflow_runtime.Runtime.Received.{
  ReceivedPacket, SensorSource, source_eq, identify_sensor_source, increment, saturating_add,
}

abbrev pub sequence_half_range : ℕ
sequence_half_range = 2 ^ 63

abbrev pub recent_sequence_count : ℕ
recent_sequence_count = 64

pub data SequenceStatus : Type 0 where
  first in_order gap duplicate reordered untracked : SequenceStatus

pub record SequenceObservation : Type 0 where
  pub status : SequenceStatus
  pub sequence_number : ℕ
  pub missing_samples : ℕ

pub record SensorStreamMetrics : Type 0 where
  pub streams_observed : ℕ
  pub packets_observed : ℕ
  pub first_observations : ℕ
  pub in_order_observations : ℕ
  pub gap_observations : ℕ
  pub duplicate_observations : ℕ
  pub reordered_observations : ℕ
  pub untracked_observations : ℕ
  pub missing_samples_inferred : ℕ

pub record SourceState : Type 0 where
  pub source : SensorSource
  pub highest_sequence : ℕ
  pub recent_sequences : ℕ

pub record SensorStreamTracker : Type 0 where
  pub max_sources : ℕ
  pub sources : List SourceState
  pub metrics : SensorStreamMetrics

abbrev pub no_metrics : SensorStreamMetrics
no_metrics = record {
  streams_observed = 0;
  packets_observed = 0;
  first_observations = 0;
  in_order_observations = 0;
  gap_observations = 0;
  duplicate_observations = 0;
  reordered_observations = 0;
  untracked_observations = 0;
  missing_samples_inferred = 0;
}

-- The constructor.
unfoldable pub make_tracker : ℕ → Result SensorStreamTracker
make_tracker max_sources =
    if max_sources == 0
    then throws (invalid_argument "sensor stream tracker source capacity must be greater than zero")
    else ok (record { max_sources = max_sources; sources = []; metrics = no_metrics })

-- What `observe` changes and returns once it has found the state of the source.
pub record Advance : Type 0 where
  pub state : SourceState
  pub metrics : SensorStreamMetrics
  pub observation : SequenceObservation

abbrev observed : SequenceStatus → ℕ → ℕ → SequenceObservation
observed status n missing = record {
  status = status;
  sequence_number = n;
  missing_samples = missing;
}

-- The branch `forward_distance < kSequenceHalfRange`.
unfoldable pub advance_forward : SourceState → SensorStreamMetrics → ℕ → ℕ → Advance
advance_forward s m n distance =
    let recent =
      if leb recent_sequence_count distance
      then 1
      else bit_or (s.recent_sequences * 2 ^ distance % 2 ^ 64) 1 in
    let moved = record s { highest_sequence = n; recent_sequences = recent } in
    let missing = distance - 1 in
    if missing == 0
    then record {
      state = moved;
      metrics = record m { in_order_observations = increment m.in_order_observations };
      observation = observed in_order n 0;
    }
    else record {
      state = moved;
      metrics = record m {
        gap_observations = increment m.gap_observations;
        missing_samples_inferred = saturating_add m.missing_samples_inferred missing;
      };
      observation = observed gap n missing;
    }

-- What follows that branch: the number is older than the highest one.
unfoldable pub advance_backward : SourceState → SensorStreamMetrics → ℕ → ℕ → Advance
advance_backward s m n distance =
    let mask = 2 ^ distance in
    let late = record m { reordered_observations = increment m.reordered_observations } in
    if ltb distance recent_sequence_count
    then if not (bit_and s.recent_sequences mask == 0)
      then record {
        state = s;
        metrics = record m { duplicate_observations = increment m.duplicate_observations };
        observation = observed duplicate n 0;
      }
      else record {
        state = record s { recent_sequences = bit_or s.recent_sequences mask };
        metrics = late;
        observation = observed reordered n 0;
      }
    else record { state = s; metrics = late; observation = observed reordered n 0 }

unfoldable pub advance : SourceState → SensorStreamMetrics → ℕ → Advance
advance s m n =
    let forward_distance = (n + 2 ^ 64 - s.highest_sequence) % 2 ^ 64 in
    let backward_distance = (s.highest_sequence + 2 ^ 64 - n) % 2 ^ 64 in
    if forward_distance == 0
    then record {
      state = s;
      metrics = record m { duplicate_observations = increment m.duplicate_observations };
      observation = observed duplicate n 0;
    }
    else if ltb forward_distance sequence_half_range
    then advance_forward s m n forward_distance
    else advance_backward s m n backward_distance

unfoldable pub find_state : SensorSource → List SourceState → Option SourceState
find_state source [] = none
find_state source (s ∷ rest) = if source_eq s.source source then some s else find_state source rest

-- The state found is changed in place.
unfoldable pub put_state : SensorSource → SourceState → List SourceState → List SourceState
put_state source new [] = []
put_state source new (s ∷ rest) =
    if source_eq s.source source then new ∷ rest else s ∷ put_state source new rest

-- A source that is not in the table.
unfoldable pub admit :
    SensorStreamTracker → SensorSource → ℕ → SensorStreamTracker × SequenceObservation
admit t source n =
    if leb t.max_sources (length t.sources)
    then (
      record t {
        metrics = record t.metrics {
          untracked_observations = increment t.metrics.untracked_observations;
        };
      },
      observed untracked n 0,
    )
    else (
      record t {
        sources =
            t.sources
            ++ record { source = source; highest_sequence = n; recent_sequences = 1 } ∷ [];
        metrics = record t.metrics {
          streams_observed = increment t.metrics.streams_observed;
          first_observations = increment t.metrics.first_observations;
        };
      },
      observed first n 0,
    )

unfoldable pub observe :
    SensorStreamTracker → ReceivedPacket → SensorStreamTracker × SequenceObservation
observe t p =
    let seen = record t {
      metrics = record t.metrics { packets_observed = increment t.metrics.packets_observed };
    } in
    let source = identify_sensor_source p in
    let n = p.packet.header.sequence_number in
    elim (find_state source t.sources) [
      | none ↦ admit seen source n
      | some s ↦
          let a = advance s seen.metrics n in
          (
            record seen { sources = put_state source a.state t.sources; metrics = a.metrics },
            a.observation,
          )
    ]
