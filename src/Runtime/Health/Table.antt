-- ===== src/Runtime/Health/Table.antt =====
-- source_health_monitor.cpp: the monitor knows the sources that the stream tracker tracks, and no
-- others.
use driveflow_runtime.Prelude.{
  ℕ, max, ◌≡◌, refl, sym, ap, ◌∙◌, inl, inr, Bool, Bool-cases, true, false, ◌||◌, none, some,
  Option-cases, List, [], ◌∷◌, ◌++◌, arith, leb, length,
}
use driveflow_runtime.Runtime.Received.{
  ReceivedPacket, SensorSource, source_eq, increment, identify_sensor_source,
}
use driveflow_runtime.Runtime.Tracker.{
  SequenceStatus, first, in_order, gap, duplicate, reordered, untracked, SequenceObservation,
  SourceState, SensorStreamMetrics, SensorStreamTracker, find_state, put_state, advance,
  advance_forward, advance_backward, admit, observe,
}
use driveflow_runtime.Runtime.Health.Defs.{
  SourceHealthIssue, payload_rejected, queue_dropped, SourceHealthState, new_state, record_packet,
  record_status, record_latency, record_arrival, record_recent_timestamp, conclude, mark_issue,
}
use driveflow_runtime.Runtime.Health.Monitor.{
  SourceHealthMonitor, find_source, change_source, ensure_source, is_untracked, observe_packet,
  observe_issue, count_issue,
}

unfoldable pub tracked : List SourceState → List SensorSource
tracked [] = []
tracked (s ∷ rest) = s.source ∷ tracked rest

unfoldable pub monitored : List SourceHealthState → List SensorSource
monitored [] = []
monitored (s ∷ rest) = s.source ∷ monitored rest

unfoldable pub knows : SensorSource → List SensorSource → Bool
knows k [] = false
knows k (x ∷ rest) = source_eq x k || knows k rest

tracked-append : (xs ys : List SourceState) → tracked (xs ++ ys) ≡ tracked xs ++ tracked ys
unfolding tracked
tracked-append [] ys = refl
tracked-append (x ∷ xs) ys = ap (λ (l : List SensorSource). x.source ∷ l) (tracked-append xs ys)

monitored-append :
    (xs ys : List SourceHealthState) → monitored (xs ++ ys) ≡ monitored xs ++ monitored ys
unfolding monitored
monitored-append [] ys = refl
monitored-append (x ∷ xs) ys = ap (λ (l : List SensorSource). x.source ∷ l) (monitored-append xs ys)

tracked-put_state :
    (k : SensorSource) (xs : List SourceState) (s new : SourceState)
    → find_state k xs ≡ some s
    → new.source ≡ s.source
    → tracked (put_state k new xs) ≡ tracked xs
unfolding tracked find_state put_state
tracked-put_state k [] s new e same = refl
tracked-put_state k (x ∷ xs) s new e same = ground (arith, tracked-put_state k xs s new)

find_state-knows :
    (k : SensorSource) (xs : List SourceState) (s : SourceState)
    → find_state k xs ≡ some s
    → knows k (tracked xs) ≡ true
unfolding find_state tracked knows
find_state-knows k [] s e = cc
find_state-knows k (x ∷ xs) s e = ground (arith, find_state-knows k xs s)

find_state-not_knows :
    (k : SensorSource) (xs : List SourceState)
    → find_state k xs ≡ none
    → knows k (tracked xs) ≡ false
unfolding find_state tracked knows
find_state-not_knows k [] e = refl
find_state-not_knows k (x ∷ xs) e = ground (arith, find_state-not_knows k xs)

find_source-knows :
    (k : SensorSource) (xs : List SourceHealthState) (s : SourceHealthState)
    → find_source k xs ≡ some s
    → knows k (monitored xs) ≡ true
unfolding find_source monitored knows
find_source-knows k [] s e = cc
find_source-knows k (x ∷ xs) s e = ground (arith, find_source-knows k xs s)

find_source-not_knows :
    (k : SensorSource) (xs : List SourceHealthState)
    → find_source k xs ≡ none
    → knows k (monitored xs) ≡ false
unfolding find_source monitored knows
find_source-not_knows k [] e = refl
find_source-not_knows k (x ∷ xs) e = ground (arith, find_source-not_knows k xs)

ensure_source-some :
    (k : SensorSource) (xs : List SourceHealthState) (s : SourceHealthState)
    → find_source k xs ≡ some s
    → ensure_source k xs ≡ xs
unfolding ensure_source
ensure_source-some k xs s e = rw (e, ensure_source)

ensure_source-none :
    (k : SensorSource) (xs : List SourceHealthState)
    → find_source k xs ≡ none
    → ensure_source k xs ≡ xs ++ new_state k ∷ []
unfolding ensure_source
ensure_source-none k xs e = rw (e, ensure_source)

ensure_source-known :
    (k : SensorSource) (xs : List SourceHealthState)
    → knows k (monitored xs) ≡ true
    → monitored (ensure_source k xs) ≡ monitored xs
ensure_source-known k xs e = elim (Option-cases (find_source k xs)) [
  | inl none_found ↦ absurd (ground (arith, e, find_source-not_knows k xs none_found))
  | inr (s, found) ↦ ap monitored (ensure_source-some k xs s found)
]

ensure_source-new :
    (k : SensorSource) (xs : List SourceHealthState)
    → knows k (monitored xs) ≡ false
    → monitored (ensure_source k xs) ≡ monitored xs ++ k ∷ []
unfolding new_state monitored
ensure_source-new k xs e = elim (Option-cases (find_source k xs)) [
  | inl none_found ↦
      ap monitored (ensure_source-none k xs none_found) ∙ monitored-append xs (new_state k ∷ [])
  | inr (s, found) ↦ absurd (ground (arith, e, find_source-knows k xs s found))
]

monitored-change_source :
    (k : SensorSource) (change : SourceHealthState → SourceHealthState)
    (xs : List SourceHealthState)
    → ((s : SourceHealthState) → (change s).source ≡ s.source)
    → monitored (change_source k change xs) ≡ monitored xs
unfolding monitored change_source
monitored-change_source k change [] same = refl
monitored-change_source k change (x ∷ xs) same =
    ground (arith, same x, monitored-change_source k change xs same)

record_status-source :
    (status : SequenceStatus) (s : SourceHealthState) (issue : Bool) (missing t : ℕ)
    → (record_status status s issue missing t).source ≡ s.source
unfolding record_status conclude mark_issue
record_status-source first s issue missing t = ground arith
record_status-source in_order s issue missing t = ground arith
record_status-source gap s issue missing t = refl
record_status-source duplicate s issue missing t = refl
record_status-source reordered s issue missing t = refl
record_status-source untracked s issue missing t = refl

record_latency-source :
    (s : SourceHealthState) (p : ReceivedPacket) → (record_latency s p).0.source ≡ s.source
unfolding record_latency
record_latency-source s p = ground arith

record_packet-source :
    (s : SourceHealthState) (p : ReceivedPacket) (o : SequenceObservation)
    → (record_packet s p o).source ≡ s.source
unfolding record_packet record_arrival record_recent_timestamp
record_packet-source s p o =
    let t = max p.receive_timestamp_ns s.last_receive_timestamp_ns in
    let (s', issue) = record_latency (record_arrival s t) p in
    record_status-source o.status s' issue o.missing_samples t
    ∙ record_latency-source (record_arrival s t) p

advance-tracked :
    (s : SourceState) (m : SensorStreamMetrics) (n : ℕ)
    → ((advance s m n).state.source ≡ s.source)
      × (is_untracked (advance s m n).observation.status ≡ false)
unfolding advance advance_forward advance_backward
advance-tracked s m n = ground arith

-- How a packet changes the sources tracked.
pub data Change (k : SensorSource) (t t' : SensorStreamTracker) (o : SequenceObservation)
    : Type 0 where
  kept :
      is_untracked o.status ≡ false
      → knows k (tracked t.sources) ≡ true
      → tracked t'.sources ≡ tracked t.sources
      → Change k t t' o
  added :
      is_untracked o.status ≡ false
      → knows k (tracked t.sources) ≡ false
      → tracked t'.sources ≡ tracked t.sources ++ k ∷ []
      → Change k t t' o
  ignored : is_untracked o.status ≡ true → t'.sources ≡ t.sources → Change k t t' o

pub observe-Change :
    (t : SensorStreamTracker) (p : ReceivedPacket)
    → Change (identify_sensor_source p) t (observe t p).0 (observe t p).1
unfolding observe admit tracked
observe-Change t p = elim (Option-cases (find_state (identify_sensor_source p) t.sources)) [
  | inr (s, e) ↦
      let seen = record t.metrics { packets_observed = increment t.metrics.packets_observed } in
      let (same, classified) = advance-tracked s seen p.packet.header.sequence_number in
      rw (e, observe)
        (kept classified (find_state-knows (identify_sensor_source p) t.sources s e)
          (tracked-put_state (identify_sensor_source p) t.sources s _ e same))
  | inl e ↦ elim (Bool-cases (leb t.max_sources (length t.sources))) [
    | inl full ↦ rw (e, observe, full, admit) (ignored refl refl)
    | inr room ↦
        rw (e, observe, room, admit)
          (added refl (find_state-not_knows (identify_sensor_source p) t.sources e)
            (tracked-append t.sources _))
  ]
]

abbrev pub InStep : SourceHealthMonitor → Type 0
InStep m = monitored m.sources ≡ tracked m.stream_tracker.sources

recorded :
    (m : SourceHealthMonitor) (p : ReceivedPacket) (o : SequenceObservation)
    → monitored (
        change_source
          (identify_sensor_source p)
          (λ s. record_packet s p o)
          (ensure_source (identify_sensor_source p) m.sources))
      ≡ monitored (ensure_source (identify_sensor_source p) m.sources)
recorded m p o =
    monitored-change_source (identify_sensor_source p) (λ s. record_packet s p o) _
      (λ s. record_packet-source s p o)

-- A packet of a new source enters it into both tables, an untracked one into neither.
pub observe_packet-InStep :
    (m : SourceHealthMonitor) (p : ReceivedPacket) → InStep m → InStep (observe_packet m p).0
unfolding observe_packet
observe_packet-InStep m p in_step = elim (observe-Change m.stream_tracker p) [
  | kept classified known same ↦
      rw (classified, observe_packet)
        (recorded m p _
          ∙ ensure_source-known (identify_sensor_source p) m.sources
              (ap (knows (identify_sensor_source p)) in_step ∙ known)
          ∙ in_step
          ∙ sym same)
  | added classified new more ↦
      rw (classified, observe_packet)
        (recorded m p _
          ∙ ensure_source-new (identify_sensor_source p) m.sources
              (ap (knows (identify_sensor_source p)) in_step ∙ new)
          ∙ ap (λ (l : List SensorSource). l ++ identify_sensor_source p ∷ []) in_step
          ∙ sym more)
  | ignored classified same ↦ rw (classified, observe_packet) (in_step ∙ ap tracked (sym same))
]

count_issue-source :
    (issue : SourceHealthIssue) (s : SourceHealthState) (t : ℕ)
    → (mark_issue (count_issue issue s) t).source ≡ s.source
unfolding count_issue mark_issue
count_issue-source payload_rejected s t = refl
count_issue-source queue_dropped s t = refl

-- An issue adds and drops no source.
pub observe_issue-InStep :
    (m : SourceHealthMonitor) (p : ReceivedPacket) (issue : SourceHealthIssue)
    → InStep m
    → InStep (observe_issue m p issue)
unfolding observe_issue
observe_issue-InStep m p issue in_step =
    monitored-change_source (identify_sensor_source p) _ m.sources
      (λ s. count_issue-source issue s p.receive_timestamp_ns)
    ∙ in_step
