-- ===== src/Runtime/Health/Defs.antt =====
-- source_health_monitor.cpp: the record of one source, its updates and its evaluation.
use driveflow_runtime.Prelude.{
  ℕ, ◌+◌, ◌-◌, ◌%◌, ◌^◌, max, min, Bool, true, false, not, ◌||◌, List, ltb, leb, ◌==◌,
  if◌then◌else◌, get_or, set, replicate,
}
use driveflow_runtime.Prelude.Int.{ℤ, pos, leb_ℤ, to_u64}
use driveflow_runtime.Prelude.Result.{Result, ok, throws, invalid_argument}
use driveflow_runtime.Runtime.Received.{ReceivedPacket, SensorSource, saturating_add, u64_max}
use driveflow_runtime.Runtime.Tracker.{
  SequenceObservation, SequenceStatus, first, in_order, gap, duplicate, reordered, untracked,
}

abbrev pub recent_timestamp_capacity : ℕ
recent_timestamp_capacity = 64

pub data SourceHealthStatus : Type 0 where
  unknown healthy degraded offline : SourceHealthStatus

pub data SourceHealthIssue : Type 0 where
  payload_rejected queue_dropped : SourceHealthIssue

-- Durations are counts of nanoseconds.
pub record SourceHealthMonitorConfig : Type 0 where
  pub max_sources : ℕ
  pub healthy_after_packets : ℕ
  pub degraded_after : ℤ
  pub offline_after : ℤ
  pub recovery_after : ℤ

unfoldable pub validate_config : SourceHealthMonitorConfig → Result SourceHealthMonitorConfig
validate_config config =
    if config.max_sources == 0
    then throws (invalid_argument "source health monitor capacity must be greater than zero")
    else if config.healthy_after_packets == 0
    then throws (invalid_argument "source health healthy packet count must be greater than zero")
    else if leb_ℤ config.degraded_after (pos 0)
    then throws (invalid_argument "source health degraded timeout must be greater than zero")
    else if leb_ℤ config.offline_after config.degraded_after
    then throws (invalid_argument "source health offline timeout must exceed degraded timeout")
    else if leb_ℤ config.recovery_after (pos 0)
    then throws (invalid_argument "source health recovery duration must be greater than zero")
    else ok config

abbrev pub saturating_increment : ℕ → ℕ
saturating_increment value = if not (value == u64_max) then value + 1 else value

abbrev pub elapsed_or_zero : ℕ → ℕ → ℕ
elapsed_or_zero now past = if leb past now then now - past else 0

-- `SourceHealthMonitor::Impl::SourceState`
pub record SourceHealthState : Type 0 where
  pub source : SensorSource
  pub recent_timestamps : List ℕ
  pub recent_timestamp_count : ℕ
  pub next_timestamp_index : ℕ
  pub packets_received : ℕ
  pub first_receive_timestamp_ns : ℕ
  pub last_receive_timestamp_ns : ℕ
  pub latest_latency_ns : ℕ
  pub maximum_latency_ns : ℕ
  pub timestamp_anomalies : ℕ
  pub gap_observations : ℕ
  pub duplicate_observations : ℕ
  pub reordered_observations : ℕ
  pub missing_samples_inferred : ℕ
  pub payloads_rejected : ℕ
  pub packets_dropped_queue_full : ℕ
  pub healthy_packets_since_issue : ℕ
  pub last_issue_timestamp_ns : ℕ
  pub issue_seen : Bool

unfoldable pub new_state : SensorSource → SourceHealthState
new_state source = record {
  source = source;
  recent_timestamps = replicate recent_timestamp_capacity 0;
  recent_timestamp_count = 0;
  next_timestamp_index = 0;
  packets_received = 0;
  first_receive_timestamp_ns = 0;
  last_receive_timestamp_ns = 0;
  latest_latency_ns = 0;
  maximum_latency_ns = 0;
  timestamp_anomalies = 0;
  gap_observations = 0;
  duplicate_observations = 0;
  reordered_observations = 0;
  missing_samples_inferred = 0;
  payloads_rejected = 0;
  packets_dropped_queue_full = 0;
  healthy_packets_since_issue = 0;
  last_issue_timestamp_ns = 0;
  issue_seen = false;
}

unfoldable pub record_recent_timestamp : SourceHealthState → ℕ → SourceHealthState
record_recent_timestamp s timestamp = record s {
  recent_timestamps = set s.recent_timestamps s.next_timestamp_index timestamp;
  next_timestamp_index = (s.next_timestamp_index + 1) % recent_timestamp_capacity;
  recent_timestamp_count = min (s.recent_timestamp_count + 1) recent_timestamp_capacity;
}

-- The new state, and whether the packet has an issue.
unfoldable pub record_latency : SourceHealthState → ReceivedPacket → SourceHealthState × Bool
record_latency s p =
    let sent = p.packet.header.source_timestamp_ns in
    if ltb p.receive_timestamp_ns sent
    then (
      record s {
        latest_latency_ns = 0;
        timestamp_anomalies = saturating_increment s.timestamp_anomalies;
      },
      true,
    )
    else (
      record s {
        latest_latency_ns = p.receive_timestamp_ns - sent;
        maximum_latency_ns = max s.maximum_latency_ns (p.receive_timestamp_ns - sent);
      },
      false,
    )

unfoldable pub mark_issue : SourceHealthState → ℕ → SourceHealthState
mark_issue s timestamp = record s {
  issue_seen = true;
  last_issue_timestamp_ns = max s.last_issue_timestamp_ns timestamp;
  healthy_packets_since_issue = 0;
}

-- The end of `record_packet`.
unfoldable pub conclude : SourceHealthState → Bool → ℕ → SourceHealthState
unfolding mark_issue
conclude s packet_has_issue timestamp =
    if packet_has_issue then mark_issue s timestamp else record s {
      healthy_packets_since_issue = saturating_increment s.healthy_packets_since_issue;
    }

-- The `switch` of `record_packet` and what follows it.
unfoldable pub record_status : SequenceStatus → SourceHealthState → Bool → ℕ → ℕ → SourceHealthState
unfolding conclude
record_status first s issue missing timestamp = conclude s issue timestamp
record_status in_order s issue missing timestamp = conclude s issue timestamp
record_status gap s issue missing timestamp =
    conclude
      (record s {
        gap_observations = saturating_increment s.gap_observations;
        missing_samples_inferred = saturating_add s.missing_samples_inferred missing;
      })
      true timestamp
record_status duplicate s issue missing timestamp =
    conclude (record s { duplicate_observations = saturating_increment s.duplicate_observations })
      true timestamp
record_status reordered s issue missing timestamp =
    conclude (record s { reordered_observations = saturating_increment s.reordered_observations })
      true timestamp
record_status untracked s issue missing timestamp = s

-- `record_packet` up to the latency.
unfoldable pub record_arrival : SourceHealthState → ℕ → SourceHealthState
unfolding record_recent_timestamp
record_arrival s receive_timestamp =
    record_recent_timestamp
      (record s {
        first_receive_timestamp_ns =
            if s.packets_received == 0 then receive_timestamp else s.first_receive_timestamp_ns;
        last_receive_timestamp_ns = receive_timestamp;
        packets_received = saturating_increment s.packets_received;
      })
      receive_timestamp

unfoldable pub record_packet :
    SourceHealthState → ReceivedPacket → SequenceObservation → SourceHealthState
unfolding record_arrival record_latency record_status
record_packet s p observation =
    let receive_timestamp = max p.receive_timestamp_ns s.last_receive_timestamp_ns in
    let (s', issue) = record_latency (record_arrival s receive_timestamp) p in
    record_status observation.status s' issue observation.missing_samples receive_timestamp

-- The operands of the floating-point expression of `current_rate_hz`:
-- `per_second n d` stands for double(n) * 1e9 / double(d).
pub data Rate : Type 0 where
  zero_hz : Rate
  per_second : ℕ → ℕ → Rate

unfoldable pub current_rate_hz : SourceHealthState → Rate
current_rate_hz s =
    let oldest_index =
      if ltb s.recent_timestamp_count recent_timestamp_capacity
      then 0
      else s.next_timestamp_index in
    let newest_index =
      (s.next_timestamp_index + recent_timestamp_capacity - 1) % recent_timestamp_capacity in
    let newest = get_or s.recent_timestamps newest_index 0 in
    let oldest = get_or s.recent_timestamps oldest_index 0 in
    let elapsed = (newest + 2 ^ 64 - oldest) % 2 ^ 64 in
    if ltb s.recent_timestamp_count 2
    then zero_hz
    else if elapsed == 0
    then zero_hz
    else per_second (s.recent_timestamp_count - 1) elapsed

unfoldable pub evaluate_status :
    SourceHealthMonitorConfig → SourceHealthState → ℕ → SourceHealthStatus
evaluate_status config s now =
    let inactivity = elapsed_or_zero now s.last_receive_timestamp_ns in
    let recovery_elapsed = elapsed_or_zero now s.last_issue_timestamp_ns in
    let recovering =
      ltb recovery_elapsed (to_u64 config.recovery_after)
      || ltb s.healthy_packets_since_issue config.healthy_after_packets in
    if leb (to_u64 config.offline_after) inactivity
    then offline
    else if leb (to_u64 config.degraded_after) inactivity
    then degraded
    else if (if s.issue_seen then recovering else false)
    then degraded
    else if ltb s.packets_received config.healthy_after_packets
    then unknown
    else healthy
