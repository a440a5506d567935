-- ===== src/Runtime/Health/Events.antt =====
-- source_health_monitor.cpp: what holds of the monitor after any sequence of its calls.
use driveflow_runtime.Prelude.{
  ◌≡◌, refl, sym, ap, ◌∙◌, subst, inl, inr, Bool-cases, false, List, [], ◌∷◌, ◌++◌, arith,
}
use driveflow_runtime.Prelude.Result.{ok, Result-cases}
use driveflow_runtime.Runtime.Received.{
  ReceivedPacket, SensorSource, source_eq, identify_sensor_source,
}
use driveflow_runtime.Runtime.Tracker.{SensorStreamTracker, make_tracker, observe}
use driveflow_runtime.Runtime.Tracker.Table.{source_eq_refl, source_eq-cong}
use driveflow_runtime.Runtime.Health.Defs.{
  SourceHealthIssue, SourceHealthMonitorConfig, validate_config,
}
use driveflow_runtime.Runtime.Health.Monitor.{
  SourceHealthMonitor, make_monitor, observe_packet, observe_issue, is_untracked,
}
use driveflow_runtime.Runtime.Health.Table.{
  tracked, monitored, knows, kept, added, ignored, observe-Change, InStep, observe_packet-InStep,
  observe_issue-InStep,
}
use driveflow_runtime.Runtime.Health.Records.{
  Records, observe_packet-Records, observe_issue-Records,
}

-- A call that changes the monitor.
pub data MonitorEvent : Type 0 where
  packet_observed : ReceivedPacket → MonitorEvent
  issue_observed : ReceivedPacket → SourceHealthIssue → MonitorEvent

unfoldable pub handle : SourceHealthMonitor → MonitorEvent → SourceHealthMonitor
handle m (packet_observed p) = (observe_packet m p).0
handle m (issue_observed p issue) = observe_issue m p issue

unfoldable pub handle_all : SourceHealthMonitor → List MonitorEvent → SourceHealthMonitor
handle_all m [] = m
handle_all m (e ∷ rest) = handle_all (handle m e) rest

-- No source stands twice in the list.
unfoldable pub Distinct : List SensorSource → Type 0
Distinct [] = Unit
Distinct (k ∷ rest) = (knows k rest ≡ false) × Distinct rest

pub source_eq-differ : (a b : SensorSource) → source_eq a b ≡ false → source_eq b a ≡ false
source_eq-differ a b differ = elim (Bool-cases (source_eq b a)) [
  | inr apart ↦ apart
  | inl same ↦ absurd (ground (arith, differ, source_eq-cong b a b same, source_eq_refl b))
]

knows-append :
    (k j : SensorSource) (ks : List SensorSource)
    → knows k ks ≡ false
    → source_eq j k ≡ false
    → knows k (ks ++ j ∷ []) ≡ false
unfolding knows
knows-append k j [] new differ = ground arith
knows-append k j (x ∷ ks) new differ = ground (arith, knows-append k j ks)

Distinct-append :
    (ks : List SensorSource) (k : SensorSource)
    → Distinct ks
    → knows k ks ≡ false
    → Distinct (ks ++ k ∷ [])
unfolding Distinct knows
Distinct-append [] k distinct new = (refl, tt)
Distinct-append (x ∷ ks) k distinct new = (
  knows-append x k ks distinct.0 (source_eq-differ x k (ground arith)),
  Distinct-append ks k distinct.1 (ground arith),
)

observe-Distinct :
    (t : SensorStreamTracker) (p : ReceivedPacket)
    → Distinct (tracked t.sources)
    → Distinct (tracked (observe t p).0.sources)
observe-Distinct t p distinct = elim (observe-Change t p) [
  | kept classified known same ↦ subst Distinct (sym same) distinct
  | added classified new more ↦
      subst Distinct (sym more)
        (Distinct-append (tracked t.sources) (identify_sensor_source p) distinct new)
  | ignored classified same ↦ subst (λ xs. Distinct (tracked xs)) (sym same) distinct
]

observe_packet-tracker :
    (m : SourceHealthMonitor) (p : ReceivedPacket)
    → (observe_packet m p).0.stream_tracker ≡ (observe m.stream_tracker p).0
unfolding observe_packet
observe_packet-tracker m p =
    elim (Bool-cases (is_untracked (observe m.stream_tracker p).1.status)) [
      | inl unknown ↦ rw (unknown, observe_packet)
      | inr known ↦ rw (known, observe_packet)
    ]

-- The monitor holds the sources that the tracker tracks, in the same order, and each of them once,
-- with a consistent record.
pub record IsCoherent (m : SourceHealthMonitor) : Type 0 where
  pub in_step : InStep m
  pub distinct : Distinct (tracked m.stream_tracker.sources)
  pub records : Records m.sources

pub handle-IsCoherent :
    (m : SourceHealthMonitor) (e : MonitorEvent) → IsCoherent m → IsCoherent (handle m e)
unfolding handle observe_issue
handle-IsCoherent m (packet_observed p) c = record {
  in_step = observe_packet-InStep m p c.in_step;
  distinct =
      subst (λ (t : SensorStreamTracker). Distinct (tracked t.sources))
        (sym (observe_packet-tracker m p)) (observe-Distinct m.stream_tracker p c.distinct);
  records = observe_packet-Records m p c.records;
}
handle-IsCoherent m (issue_observed p issue) c = record {
  in_step = observe_issue-InStep m p issue c.in_step;
  distinct = c.distinct;
  records = observe_issue-Records m p issue c.records;
}

handle_all-kept :
    (m : SourceHealthMonitor) (events : List MonitorEvent)
    → IsCoherent m
    → IsCoherent (handle_all m events)
unfolding handle_all
handle_all-kept m [] c = c
handle_all-kept m (e ∷ rest) c = handle_all-kept (handle m e) rest (handle-IsCoherent m e c)

make_monitor_empty :
    (config : SourceHealthMonitorConfig) (m : SourceHealthMonitor)
    → make_monitor config ≡ ok m
    → (m.sources ≡ []) × (m.stream_tracker.sources ≡ [])
unfolding make_monitor make_tracker
make_monitor_empty config m e = elim (Result-cases (validate_config config)) [
  | inl (checked, good) ↦ ground (arith, good)
  | inr (x, bad) ↦ ground (arith, bad)
]

pub make_monitor-IsCoherent :
    (config : SourceHealthMonitorConfig) (m : SourceHealthMonitor)
    → make_monitor config ≡ ok m
    → IsCoherent m
unfolding tracked monitored Distinct
make_monitor-IsCoherent config m e =
    let (no_sources, no_streams) = make_monitor_empty config m e in
    record {
      in_step = ap monitored no_sources ∙ sym (ap tracked no_streams);
      distinct = subst (λ xs. Distinct (tracked xs)) (sym no_streams) tt;
      records = subst Records (sym no_sources) tt;
    }

-- After any sequence of packets and issues that a new monitor is given, it holds exactly the sources
-- that its stream tracker tracks, in the same order, and each of them once. The record of each is
-- consistent: the first receive time is at most the last, the latest latency at most the largest,
-- the packets since the last issue at most all packets, these fit in 64 bits, and a source without
-- an issue has no issue time.
pub handle_all-IsCoherent :
    (config : SourceHealthMonitorConfig) (m : SourceHealthMonitor) (events : List MonitorEvent)
    → make_monitor config ≡ ok m
    → IsCoherent (handle_all m events)
handle_all-IsCoherent config m events e =
    handle_all-kept m events (make_monitor-IsCoherent config m e)
