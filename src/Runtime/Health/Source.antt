-- ===== src/Runtime/Health/Source.antt =====
-- source_health_monitor.cpp: the record of one source stays consistent, packet after packet.
use driveflow_runtime.Prelude.{ℕ, ◌+◌, ◌≤◌, ◌≡◌, refl, min, Bool, true, false, arith}
use driveflow_runtime.Runtime.Received.{ReceivedPacket, SensorSource, u64_max}
use driveflow_runtime.Runtime.Tracker.{
  SequenceObservation, SequenceStatus, first, in_order, gap, duplicate, reordered, untracked,
}
use driveflow_runtime.Runtime.Health.Defs.{
  new_state, SourceHealthState, record_packet, record_status, record_latency, record_arrival,
  record_recent_timestamp, conclude, mark_issue,
}

-- The record of a source is consistent.
pub record IsValid (s : SourceHealthState) : Type 0 where
  pub ordered : s.first_receive_timestamp_ns ≤ s.last_receive_timestamp_ns
  pub latency : s.latest_latency_ns ≤ s.maximum_latency_ns
  pub recent : s.healthy_packets_since_issue ≤ s.packets_received
  pub packets : s.packets_received ≤ u64_max
  pub issue : s.issue_seen ≡ false → s.last_issue_timestamp_ns ≡ 0

pub new_state-IsValid : (source : SensorSource) → IsValid (new_state source)
unfolding new_state
new_state-IsValid source = record {
  ordered = omega arith;
  latency = omega arith;
  recent = omega arith;
  packets = omega arith;
  issue = λ e. refl;
}

-- As `IsValid`, with one packet more counted than the packets since the last issue.
record Arrived (s : SourceHealthState) : Type 0 where
  ordered : s.first_receive_timestamp_ns ≤ s.last_receive_timestamp_ns
  latency : s.latest_latency_ns ≤ s.maximum_latency_ns
  recent : min (s.healthy_packets_since_issue + 1) u64_max ≤ s.packets_received
  small : s.healthy_packets_since_issue ≤ u64_max
  packets : s.packets_received ≤ u64_max
  issue : s.issue_seen ≡ false → s.last_issue_timestamp_ns ≡ 0

record_arrival-Arrived :
    (s : SourceHealthState) (t : ℕ)
    → IsValid s
    → s.last_receive_timestamp_ns ≤ t
    → Arrived (record_arrival s t)
unfolding record_arrival record_recent_timestamp
record_arrival-Arrived s t v le = record {
  ordered = ground (arith, v.ordered);
  latency = v.latency;
  recent = ground (arith, v.recent, v.packets);
  small = omega (arith, v.recent, v.packets);
  packets = ground (arith, v.packets);
  issue = v.issue;
}

record_latency-Arrived :
    (s : SourceHealthState) (p : ReceivedPacket) → Arrived s → Arrived (record_latency s p).0
unfolding record_latency
record_latency-Arrived s p v = record {
  ordered = ground (arith, v.ordered);
  latency = ground (arith, v.latency);
  recent = ground (arith, v.recent);
  small = ground (arith, v.small);
  packets = ground (arith, v.packets);
  issue = ground (arith, v.issue);
}

conclude-IsValid :
    (s : SourceHealthState) (issue : Bool) (t : ℕ) → Arrived s → IsValid (conclude s issue t)
unfolding conclude mark_issue
conclude-IsValid s true t v = record {
  ordered = v.ordered;
  latency = v.latency;
  recent = omega arith;
  packets = v.packets;
  issue = λ e. absurd (ground arith);
}
conclude-IsValid s false t v = record {
  ordered = v.ordered;
  latency = v.latency;
  recent = ground (arith, v.recent, v.small, v.packets);
  packets = v.packets;
  issue = v.issue;
}

-- `Arrived` reads none of the counters of anomalies.
record_status-IsValid :
    (status : SequenceStatus) (s : SourceHealthState) (issue : Bool) (missing t : ℕ)
    → Arrived s
    → IsValid (record_status status s issue missing t)
unfolding record_status
record_status-IsValid first s issue missing t v = conclude-IsValid s issue t v
record_status-IsValid in_order s issue missing t v = conclude-IsValid s issue t v
record_status-IsValid gap s issue missing t v = conclude-IsValid _ true t (record {
  ordered = v.ordered;
  latency = v.latency;
  recent = v.recent;
  small = v.small;
  packets = v.packets;
  issue = v.issue;
})
record_status-IsValid duplicate s issue missing t v = conclude-IsValid _ true t (record {
  ordered = v.ordered;
  latency = v.latency;
  recent = v.recent;
  small = v.small;
  packets = v.packets;
  issue = v.issue;
})
record_status-IsValid reordered s issue missing t v = conclude-IsValid _ true t (record {
  ordered = v.ordered;
  latency = v.latency;
  recent = v.recent;
  small = v.small;
  packets = v.packets;
  issue = v.issue;
})
record_status-IsValid untracked s issue missing t v = record {
  ordered = v.ordered;
  latency = v.latency;
  recent = omega (arith, v.recent, v.small, v.packets);
  packets = v.packets;
  issue = v.issue;
}

-- A packet leaves the record of its source consistent: the first receive time is at most the
-- last, the latest latency at most the largest, the packets since the last issue at most all
-- packets, these fit in 64 bits, and a source without an issue has no issue time.
pub record_packet-IsValid :
    (s : SourceHealthState) (p : ReceivedPacket) (o : SequenceObservation)
    → IsValid s
    → IsValid (record_packet s p o)
unfolding record_packet
record_packet-IsValid s p o v =
    record_status-IsValid o.status _ _ o.missing_samples _
      (record_latency-Arrived _ p (record_arrival-Arrived s _ v (omega arith)))
