-- ===== src/Runtime/Health/Records.antt =====
-- source_health_monitor.cpp: the calls of the monitor keep the record of every source consistent.
use driveflow_runtime.Prelude.{
  ℕ, inl, inr, Bool-cases, none, some, Option, List, [], ◌∷◌, ◌++◌, arith, All, All-append,
}
use driveflow_runtime.Runtime.Received.{
  ReceivedPacket, SensorSource, source_eq, identify_sensor_source,
}
use driveflow_runtime.Runtime.Tracker.{observe}
use driveflow_runtime.Runtime.Health.Defs.{
  SourceHealthState, SourceHealthIssue, payload_rejected, queue_dropped, mark_issue, new_state,
  record_packet,
}
use driveflow_runtime.Runtime.Health.Monitor.{
  SourceHealthMonitor, observe_packet, observe_issue, is_untracked, change_source, ensure_source,
  find_source, count_issue,
}
use driveflow_runtime.Runtime.Health.Source.{IsValid, new_state-IsValid, record_packet-IsValid}

-- Every source has a consistent record.
abbrev pub Records : List SourceHealthState → Type 0
Records sources = All IsValid sources

change_source-Records :
    (source : SensorSource) (change : SourceHealthState → SourceHealthState)
    (xs : List SourceHealthState)
    → ((s : SourceHealthState) → IsValid s → IsValid (change s))
    → Records xs
    → Records (change_source source change xs)
unfolding change_source
change_source-Records source change [] keeps all = tt
change_source-Records source change (s ∷ rest) keeps (v, all) =
    let kept = change_source-Records source change rest keeps all in
    elim (Bool-cases (source_eq s.source source)) [
      | inl here ↦ rw (here, change_source) (keeps s v, all)
      | inr further ↦ rw (further, change_source) (v, kept)
    ]

ensured-Records :
    (source : SensorSource) (xs : List SourceHealthState) (found : Option SourceHealthState)
    → Records xs
    → Records (elim found [ none ↦ xs ++ new_state source ∷ [] | some s ↦ xs ])
ensured-Records source xs none all =
    All-append IsValid xs (new_state source ∷ []) all (new_state-IsValid source, tt)
ensured-Records source xs (some s) all = all

ensure_source-Records :
    (source : SensorSource) (xs : List SourceHealthState)
    → Records xs
    → Records (ensure_source source xs)
unfolding ensure_source
ensure_source-Records source xs all = ensured-Records source xs (find_source source xs) all

issue-IsValid :
    (issue : SourceHealthIssue) (t : ℕ) (s : SourceHealthState)
    → IsValid s
    → IsValid (mark_issue (count_issue issue s) t)
unfolding mark_issue count_issue
issue-IsValid payload_rejected t s v = record {
  ordered = v.ordered;
  latency = v.latency;
  recent = omega arith;
  packets = v.packets;
  issue = λ e. absurd (ground (arith, e));
}
issue-IsValid queue_dropped t s v = record {
  ordered = v.ordered;
  latency = v.latency;
  recent = omega arith;
  packets = v.packets;
  issue = λ e. absurd (ground (arith, e));
}

pub observe_packet-Records :
    (m : SourceHealthMonitor) (p : ReceivedPacket)
    → Records m.sources
    → Records (observe_packet m p).0.sources
unfolding observe_packet
observe_packet-Records m p all =
    let o = (observe m.stream_tracker p).1 in
    elim (Bool-cases (is_untracked o.status)) [
      | inl unknown ↦ rw (unknown, observe_packet) all
      | inr known ↦
          rw (known, observe_packet)
            (change_source-Records (identify_sensor_source p) (λ s. record_packet s p o)
              (ensure_source (identify_sensor_source p) m.sources)
              (λ s v. record_packet-IsValid s p o v)
              (ensure_source-Records (identify_sensor_source p) m.sources all))
    ]

pub observe_issue-Records :
    (m : SourceHealthMonitor) (p : ReceivedPacket) (issue : SourceHealthIssue)
    → Records m.sources
    → Records (observe_issue m p issue).sources
unfolding observe_issue
observe_issue-Records m p issue all =
    change_source-Records (identify_sensor_source p)
      (λ s. mark_issue (count_issue issue s) p.receive_timestamp_ns) m.sources
      (issue-IsValid issue p.receive_timestamp_ns) all
