-- ===== src/Runtime/Health/Order.antt =====
-- source_health_monitor.cpp: the order of a report.
use mathlib.Core.List.{Perm}
use mathlib.Core.List.Perm
use driveflow_runtime.Prelude.{
  ℕ, ◌≡◌, refl, sym, ap, subst, All, inl, inr, Bool-cases, true, false, List, [], ◌∷◌, map, arith,
  if◌then◌else◌,
}
use driveflow_runtime.Prelude.Result.{ok}
use driveflow_runtime.Net.{Text, endpoint_eq, text_eq}
use driveflow_runtime.Runtime.Received.{SensorSource, source_eq}
use driveflow_runtime.Runtime.Health.Defs.{SourceHealthState, SourceHealthMonitorConfig}
use driveflow_runtime.Runtime.Health.Table.{monitored, knows}
use driveflow_runtime.Runtime.Health.Events.{
  MonitorEvent, handle_all, Distinct, source_eq-differ, IsCoherent, handle_all-IsCoherent,
}
use driveflow_runtime.Runtime.Health.Monitor.{
  SourceHealthMonitor, make_monitor, SourceHealthSnapshot, make_snapshot, text_lt, source_lt,
  insert_snapshot, sort_snapshots, report,
}

text_eq_comm : (a b : Text) → text_eq a b ≡ text_eq b a
unfolding text_eq
text_eq_comm [] [] = refl
text_eq_comm [] (b ∷ bs) = refl
text_eq_comm (a ∷ rest) [] = refl
text_eq_comm (a ∷ rest) (b ∷ bs) = ground (arith, text_eq_comm rest bs)

text_lt_total : (a b : Text) → text_eq a b ≡ false → text_lt b a ≡ false → text_lt a b ≡ true
unfolding text_lt text_eq
text_lt_total [] [] differ above = cc
text_lt_total [] (b ∷ bs) differ above = refl
text_lt_total (a ∷ rest) [] differ above = cc
text_lt_total (a ∷ rest) (b ∷ bs) differ above = ground (arith, text_lt_total rest bs)

source_lt_total :
    (a b : SensorSource) → source_eq a b ≡ false → source_lt b a ≡ false → source_lt a b ≡ true
unfolding source_lt source_eq endpoint_eq
source_lt_total a b differ above = ground (
  arith,
  text_eq_comm a.remote_endpoint.address b.remote_endpoint.address,
  text_lt_total a.remote_endpoint.address b.remote_endpoint.address,
  text_eq_comm a.listener_endpoint.address b.listener_endpoint.address,
  text_lt_total a.listener_endpoint.address b.listener_endpoint.address,
)

-- Each snapshot's source is before that of the next one.
unfoldable pub Ascending : List SourceHealthSnapshot → Type 0
Ascending [] = Unit
Ascending (a ∷ []) = Unit
Ascending (a ∷ b ∷ rest) = (source_lt a.source b.source ≡ true) × Ascending (b ∷ rest)

-- No snapshot has the source of `a`.
abbrev Lacks : SensorSource → List SourceHealthSnapshot → Type 0
Lacks k snapshots = All (λ b. source_eq b.source k ≡ false) snapshots

insert_snapshot-perm :
    (a : SourceHealthSnapshot) (snapshots : List SourceHealthSnapshot)
    → Perm (insert_snapshot a snapshots) (a ∷ snapshots)
unfolding insert_snapshot
insert_snapshot-perm a [] = Perm.rfl
insert_snapshot-perm a (b ∷ rest) = elim (Bool-cases (source_lt b.source a.source)) [
  | inl before ↦
      rw (before, insert_snapshot)
        (Perm.trans (Perm.cons b (insert_snapshot-perm a rest)) (Perm.swap a b rest))
  | inr behind ↦ rw (behind, insert_snapshot) Perm.rfl
]

sort_snapshots-perm :
    (snapshots : List SourceHealthSnapshot) → Perm (sort_snapshots snapshots) snapshots
unfolding sort_snapshots
sort_snapshots-perm [] = Perm.rfl
sort_snapshots-perm (a ∷ rest) =
    Perm.trans (insert_snapshot-perm a (sort_snapshots rest))
      (Perm.cons a (sort_snapshots-perm rest))

insert_snapshot-Ascending_behind :
    (c a : SourceHealthSnapshot) (snapshots : List SourceHealthSnapshot)
    → source_lt c.source a.source ≡ true
    → Ascending (c ∷ snapshots)
    → Ascending (insert_snapshot a snapshots)
    → Ascending (c ∷ insert_snapshot a snapshots)
unfolding insert_snapshot Ascending
insert_snapshot-Ascending_behind c a [] less up inserted = (less, tt)
insert_snapshot-Ascending_behind c a (b ∷ rest) less up inserted =
    elim (Bool-cases (source_lt b.source a.source)) [
      | inl before ↦
          rw (before, insert_snapshot)
            (
              up.0,
              subst Ascending
                  (ap (λ t. if t then b ∷ insert_snapshot a rest else a ∷ b ∷ rest) before)
                  inserted,
            )
      | inr behind ↦
          rw (behind, insert_snapshot)
            (
              less,
              subst Ascending
                  (ap (λ t. if t then b ∷ insert_snapshot a rest else a ∷ b ∷ rest) behind)
                  inserted,
            )
    ]

Ascending-rest :
    (a : SourceHealthSnapshot) (snapshots : List SourceHealthSnapshot)
    → Ascending (a ∷ snapshots)
    → Ascending snapshots
unfolding Ascending
Ascending-rest a [] up = tt
Ascending-rest a (b ∷ rest) up = up.1

insert_snapshot-Ascending :
    (a : SourceHealthSnapshot) (snapshots : List SourceHealthSnapshot)
    → Lacks a.source snapshots
    → Ascending snapshots
    → Ascending (insert_snapshot a snapshots)
unfolding insert_snapshot Ascending
insert_snapshot-Ascending a [] lacks up = tt
insert_snapshot-Ascending a (b ∷ rest) lacks up = elim (Bool-cases (source_lt b.source a.source)) [
  | inl before ↦
      rw (before, insert_snapshot)
        (insert_snapshot-Ascending_behind b a rest before up
          (insert_snapshot-Ascending a rest lacks.1 (Ascending-rest b rest up)))
  | inr behind ↦
      rw (behind, insert_snapshot)
        (source_lt_total a.source b.source (source_eq-differ b.source a.source lacks.0) behind, up)
]

insert_snapshot-Lacks :
    (k : SensorSource) (a : SourceHealthSnapshot) (snapshots : List SourceHealthSnapshot)
    → source_eq a.source k ≡ false
    → Lacks k snapshots
    → Lacks k (insert_snapshot a snapshots)
unfolding insert_snapshot
insert_snapshot-Lacks k a [] differ lacks = (differ, tt)
insert_snapshot-Lacks k a (b ∷ rest) differ lacks =
    elim (Bool-cases (source_lt b.source a.source)) [
      | inl before ↦
          rw (before, insert_snapshot) (lacks.0, insert_snapshot-Lacks k a rest differ lacks.1)
      | inr behind ↦ rw (behind, insert_snapshot) (differ, lacks)
    ]

module _ (config : SourceHealthMonitorConfig) (now : ℕ) where
  abbrev snapshots : List SourceHealthState → List SourceHealthSnapshot
  snapshots sources = map (make_snapshot config now) sources

  sorted-Lacks :
      (k : SensorSource) (sources : List SourceHealthState)
      → knows k (monitored sources) ≡ false
      → Lacks k (sort_snapshots (snapshots sources))
  unfolding sort_snapshots knows monitored make_snapshot
  sorted-Lacks k [] new = tt
  sorted-Lacks k (s ∷ rest) new =
      insert_snapshot-Lacks k (make_snapshot config now s) (sort_snapshots (snapshots rest))
        (ground arith) (sorted-Lacks k rest (ground arith))

  sorted-Ascending :
      (sources : List SourceHealthState)
      → Distinct (monitored sources)
      → Ascending (sort_snapshots (snapshots sources))
  unfolding sort_snapshots monitored Distinct Ascending make_snapshot
  sorted-Ascending [] distinct = tt
  sorted-Ascending (s ∷ rest) distinct =
      insert_snapshot-Ascending (make_snapshot config now s) (sort_snapshots (snapshots rest))
        (sorted-Lacks s.source rest distinct.0) (sorted-Ascending rest distinct.1)

-- The order and the contents of a report.
pub report-IsCoherent :
    (m : SourceHealthMonitor) (now : ℕ)
    → IsCoherent m
    → Ascending (report m now).sources
      × Perm (report m now).sources (map (make_snapshot m.config now) m.sources)
unfolding report
report-IsCoherent m now c = (
  sorted-Ascending m.config now m.sources (subst Distinct (sym c.in_step) c.distinct),
  sort_snapshots-perm (map (make_snapshot m.config now) m.sources),
)

-- After any sequence of packets and issues that a new monitor is given, its report has one snapshot
-- of each source that it holds, and no other, in strictly ascending order of the sources.
pub report-Ascending :
    (config : SourceHealthMonitorConfig) (m : SourceHealthMonitor) (events : List MonitorEvent)
    (now : ℕ)
    → make_monitor config ≡ ok m
    → Ascending (report (handle_all m events) now).sources
      × Perm
          (report (handle_all m events) now).sources
          (map (make_snapshot (handle_all m events).config now) (handle_all m events).sources)
report-Ascending config m events now e =
    report-IsCoherent (handle_all m events) now (handle_all-IsCoherent config m events e)
