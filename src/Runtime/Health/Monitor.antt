-- ===== src/Runtime/Health/Monitor.antt =====
-- source_health_monitor.cpp: the monitor over all sources, and its report. Each operation runs
-- under the mutex, so that it is one step.
use driveflow_runtime.Prelude.{
  ℕ, Bool, true, false, ◌&&◌, ◌||◌, Option, none, some, List, [], ◌∷◌, ◌++◌, map, ltb, ◌==◌,
  if◌then◌else◌,
}
use driveflow_runtime.Prelude.Result.{Result, ok, ◌>>=◌}
use driveflow_runtime.Net.{Text, text_eq}
use driveflow_runtime.Protocol.Packet.{to_raw}
use driveflow_runtime.Runtime.Received.{
  ReceivedPacket, SensorSource, source_eq, identify_sensor_source,
}
use driveflow_runtime.Runtime.Tracker.{
  SequenceObservation, SequenceStatus, first, in_order, gap, duplicate, reordered, untracked,
  SensorStreamMetrics, SensorStreamTracker, make_tracker, observe,
}
use driveflow_runtime.Runtime.Health.Defs.{
  SourceHealthStatus, SourceHealthIssue, payload_rejected, queue_dropped, SourceHealthMonitorConfig,
  validate_config, SourceHealthState, new_state, saturating_increment, elapsed_or_zero, mark_issue,
  record_packet, Rate, current_rate_hz, evaluate_status,
}

pub record SourceHealthMonitor : Type 0 where
  pub config : SourceHealthMonitorConfig
  pub stream_tracker : SensorStreamTracker
  pub sources : List SourceHealthState

unfoldable pub make_monitor : SourceHealthMonitorConfig → Result SourceHealthMonitor
make_monitor config = do
  checked ← validate_config config
  tracker ← make_tracker checked.max_sources
  ok (record { config = checked; stream_tracker = tracker; sources = [] })

unfoldable pub find_source : SensorSource → List SourceHealthState → Option SourceHealthState
find_source source [] = none
find_source source (s ∷ rest) =
    if source_eq s.source source then some s else find_source source rest

-- The source found is changed in place.
unfoldable pub change_source :
    SensorSource
    → (SourceHealthState → SourceHealthState)
    → List SourceHealthState
    → List SourceHealthState
change_source source change [] = []
change_source source change (s ∷ rest) =
    if source_eq s.source source then change s ∷ rest else s ∷ change_source source change rest

-- `find_source`, and `push_back` of a new state where it finds none.
unfoldable pub ensure_source : SensorSource → List SourceHealthState → List SourceHealthState
ensure_source source sources = elim (find_source source sources) [
  | none ↦ sources ++ new_state source ∷ []
  | some s ↦ sources
]

abbrev pub is_untracked : SequenceStatus → Bool
is_untracked untracked = true
is_untracked first = false
is_untracked in_order = false
is_untracked gap = false
is_untracked duplicate = false
is_untracked reordered = false

unfoldable pub observe_packet :
    SourceHealthMonitor → ReceivedPacket → SourceHealthMonitor × SequenceObservation
observe_packet m p =
    let (tracker, observation) = observe m.stream_tracker p in
    let source = identify_sensor_source p in
    if is_untracked observation.status
    then (record m { stream_tracker = tracker }, observation)
    else (
      record m {
        stream_tracker = tracker;
        sources =
            change_source source (λ s. record_packet s p observation)
              (ensure_source source m.sources);
      },
      observation,
    )

unfoldable pub count_issue : SourceHealthIssue → SourceHealthState → SourceHealthState
count_issue payload_rejected s = record s {
  payloads_rejected = saturating_increment s.payloads_rejected;
}
count_issue queue_dropped s = record s {
  packets_dropped_queue_full = saturating_increment s.packets_dropped_queue_full;
}

-- Where `find_source` finds none, the call returns.
unfoldable pub observe_issue :
    SourceHealthMonitor → ReceivedPacket → SourceHealthIssue → SourceHealthMonitor
observe_issue m p issue = record m {
  sources =
      change_source (identify_sensor_source p)
        (λ s. mark_issue (count_issue issue s) p.receive_timestamp_ns) m.sources;
}

pub record SourceHealthSnapshot : Type 0 where
  pub source : SensorSource
  pub status : SourceHealthStatus
  pub packets_received : ℕ
  pub first_receive_timestamp_ns : ℕ
  pub last_receive_timestamp_ns : ℕ
  pub inactivity_ns : ℕ
  pub current_rate_hz : Rate
  pub latest_latency_ns : ℕ
  pub maximum_latency_ns : ℕ
  pub timestamp_anomalies : ℕ
  pub gap_observations : ℕ
  pub duplicate_observations : ℕ
  pub reordered_observations : ℕ
  pub missing_samples_inferred : ℕ
  pub payloads_rejected : ℕ
  pub packets_dropped_queue_full : ℕ

pub record SourceHealthReport : Type 0 where
  pub stream_metrics : SensorStreamMetrics
  pub sources : List SourceHealthSnapshot

unfoldable pub make_snapshot :
    SourceHealthMonitorConfig → ℕ → SourceHealthState → SourceHealthSnapshot
make_snapshot config now s = record {
  source = s.source;
  status = evaluate_status config s now;
  packets_received = s.packets_received;
  first_receive_timestamp_ns = s.first_receive_timestamp_ns;
  last_receive_timestamp_ns = s.last_receive_timestamp_ns;
  inactivity_ns = elapsed_or_zero now s.last_receive_timestamp_ns;
  current_rate_hz = current_rate_hz s;
  latest_latency_ns = s.latest_latency_ns;
  maximum_latency_ns = s.maximum_latency_ns;
  timestamp_anomalies = s.timestamp_anomalies;
  gap_observations = s.gap_observations;
  duplicate_observations = s.duplicate_observations;
  reordered_observations = s.reordered_observations;
  missing_samples_inferred = s.missing_samples_inferred;
  payloads_rejected = s.payloads_rejected;
  packets_dropped_queue_full = s.packets_dropped_queue_full;
}

-- operator< of std::string
unfoldable pub text_lt : Text → Text → Bool
text_lt [] [] = false
text_lt [] (b ∷ bs) = true
text_lt (a ∷ rest) [] = false
text_lt (a ∷ rest) (b ∷ bs) = ltb a b || (a == b && text_lt rest bs)

-- The order of the tuples that the report is sorted by.
unfoldable pub source_lt : SensorSource → SensorSource → Bool
source_lt a b =
    if text_eq a.remote_endpoint.address b.remote_endpoint.address
    then (if a.remote_endpoint.port == b.remote_endpoint.port
        then (if text_eq a.listener_endpoint.address b.listener_endpoint.address
            then (if a.listener_endpoint.port == b.listener_endpoint.port
                then ltb (to_raw a.message_type) (to_raw b.message_type)
                else ltb a.listener_endpoint.port b.listener_endpoint.port)
            else text_lt a.listener_endpoint.address b.listener_endpoint.address)
        else ltb a.remote_endpoint.port b.remote_endpoint.port)
    else text_lt a.remote_endpoint.address b.remote_endpoint.address

-- std::ranges::sort by the source, as an insertion sort: no two snapshots have one source, so
-- every sort gives this list.
unfoldable pub insert_snapshot :
    SourceHealthSnapshot → List SourceHealthSnapshot → List SourceHealthSnapshot
insert_snapshot a [] = a ∷ []
insert_snapshot a (b ∷ rest) =
    if source_lt b.source a.source then b ∷ insert_snapshot a rest else a ∷ b ∷ rest

unfoldable pub sort_snapshots : List SourceHealthSnapshot → List SourceHealthSnapshot
unfolding insert_snapshot
sort_snapshots [] = []
sort_snapshots (a ∷ rest) = insert_snapshot a (sort_snapshots rest)

unfoldable pub report : SourceHealthMonitor → ℕ → SourceHealthReport
report m now = record {
  stream_metrics = m.stream_tracker.metrics;
  sources = sort_snapshots (map (make_snapshot m.config now) m.sources);
}
