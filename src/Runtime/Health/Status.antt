-- ===== src/Runtime/Health/Status.antt =====
-- source_health_monitor.cpp: what the states of a source mean, and what an issue does to them.
use driveflow_runtime.Prelude.{ℕ, ◌≤◌, ◌<◌, ◌≡◌, ◌≢◌, refl, Bool, true, false, arith}
use driveflow_runtime.Prelude.Int.{to_u64}
use driveflow_runtime.Runtime.Received.{ReceivedPacket}
use driveflow_runtime.Runtime.Tracker.{
  SequenceObservation, SequenceStatus, first, in_order, gap, duplicate, reordered, untracked,
}
use driveflow_runtime.Runtime.Health.Defs.{
  healthy, offline, SourceHealthMonitorConfig, SourceHealthState, record_packet, record_status,
  conclude, mark_issue, evaluate_status, elapsed_or_zero,
}

-- A source that is healthy at `now` was heard of within the degraded timeout and the
-- offline timeout, has sent the healthy packet count, and, if it ever had an issue, the recovery
-- duration has passed since the last issue and the healthy packet count has been reached again.
pub evaluate_status-healthy :
    (config : SourceHealthMonitorConfig) (s : SourceHealthState) (now : ℕ)
    → evaluate_status config s now ≡ healthy
    → (elapsed_or_zero now s.last_receive_timestamp_ns < to_u64 config.offline_after)
      × (elapsed_or_zero now s.last_receive_timestamp_ns < to_u64 config.degraded_after)
      × (config.healthy_after_packets ≤ s.packets_received)
      × (s.issue_seen ≡ true
          → (to_u64 config.recovery_after ≤ elapsed_or_zero now s.last_issue_timestamp_ns)
            × (config.healthy_after_packets ≤ s.healthy_packets_since_issue))
unfolding evaluate_status
evaluate_status-healthy config s now e = ground arith

offline-silent :
    (config : SourceHealthMonitorConfig) (s : SourceHealthState) (now : ℕ)
    → evaluate_status config s now ≡ offline
    → to_u64 config.offline_after ≤ elapsed_or_zero now s.last_receive_timestamp_ns
unfolding evaluate_status
offline-silent config s now e = ground arith

silent-offline :
    (config : SourceHealthMonitorConfig) (s : SourceHealthState) (now : ℕ)
    → to_u64 config.offline_after ≤ elapsed_or_zero now s.last_receive_timestamp_ns
    → evaluate_status config s now ≡ offline
unfolding evaluate_status
silent-offline config s now le = ground arith

elapsed_or_zero_monotone :
    (now later past : ℕ) → now ≤ later → elapsed_or_zero now past ≤ elapsed_or_zero later past
elapsed_or_zero_monotone now later past le = ground arith

-- A source that is offline at one time is offline at every later time, as long as nothing more is
-- recorded of it.
pub evaluate_status-offline :
    (config : SourceHealthMonitorConfig) (s : SourceHealthState) (now later : ℕ)
    → evaluate_status config s now ≡ offline
    → now ≤ later
    → evaluate_status config s later ≡ offline
evaluate_status-offline config s now later e le = silent-offline config s later (
    omega (
      arith,
      offline-silent config s now e,
      elapsed_or_zero_monotone now later s.last_receive_timestamp_ns le,
    ))

-- What `record_status` leaves of a packet with an issue.
record MarkedBad (s : SourceHealthState) : Type 0 where
  seen : s.issue_seen ≡ true
  none_since : s.healthy_packets_since_issue ≡ 0

abbrev pub is_issue : SequenceStatus → Bool
is_issue gap = true
is_issue duplicate = true
is_issue reordered = true
is_issue first = false
is_issue in_order = false
is_issue untracked = false

record_status-marked :
    (status : SequenceStatus) (s : SourceHealthState) (issue : Bool) (missing t : ℕ)
    → is_issue status ≡ true
    → MarkedBad (record_status status s issue missing t)
unfolding record_status conclude mark_issue
record_status-marked gap s issue missing t e = record { seen = refl; none_since = refl }
record_status-marked duplicate s issue missing t e = record { seen = refl; none_since = refl }
record_status-marked reordered s issue missing t e = record { seen = refl; none_since = refl }
record_status-marked first s issue missing t e = absurd (ground arith)
record_status-marked in_order s issue missing t e = absurd (ground arith)
record_status-marked untracked s issue missing t e = absurd (ground arith)

marked-not_healthy :
    (config : SourceHealthMonitorConfig) (s : SourceHealthState) (now : ℕ)
    → 1 ≤ config.healthy_after_packets
    → MarkedBad s
    → evaluate_status config s now ≢ healthy
marked-not_healthy config s now pos marked e =
    let (a, b, c, recovered) = evaluate_status-healthy config s now e in
    let (d, again) = recovered marked.seen in omega (arith, pos, marked.none_since, again)

-- A packet that the tracker classifies as a gap, a duplicate or reordered leaves its source not
-- healthy at every time, under every configuration whose healthy packet count is positive.
pub record_packet-not_healthy :
    (config : SourceHealthMonitorConfig) (s : SourceHealthState) (p : ReceivedPacket)
    (o : SequenceObservation) (now : ℕ)
    → 1 ≤ config.healthy_after_packets
    → is_issue o.status ≡ true
    → evaluate_status config (record_packet s p o) now ≢ healthy
unfolding record_packet
record_packet-not_healthy config s p o now pos e =
    marked-not_healthy config _ now pos (record_status-marked o.status _ _ o.missing_samples _ e)
