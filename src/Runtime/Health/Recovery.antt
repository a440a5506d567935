-- ===== src/Runtime/Health/Recovery.antt =====
-- source_health_monitor.cpp: how packets without an issue bring a source back to health.
use driveflow_runtime.Prelude.{
  ℕ, suc, ◌+◌, ◌-◌, ◌^◌, ◌≤◌, ◌<◌, ◌≡◌, ◌↔◌, ◌⊎◌, inl, inr, ◌∙◌, refl, sym, ap, subst, ltb, min,
  max, Bool, true, false, List, [], ◌∷◌, arith, All, length,
}
use driveflow_runtime.Prelude.Int.{to_u64}
use driveflow_runtime.Runtime.Received.{ReceivedPacket, u64_max}
use driveflow_runtime.Runtime.Tracker.{
  SequenceObservation, SequenceStatus, first, in_order, gap, duplicate, reordered, untracked,
}
use driveflow_runtime.Runtime.Health.Defs.{
  healthy, SourceHealthMonitorConfig, SourceHealthState, record_packet, record_status,
  record_arrival, record_latency, record_recent_timestamp, conclude, evaluate_status,
  elapsed_or_zero, saturating_increment,
}
use driveflow_runtime.Runtime.Health.Source.{IsValid, record_packet-IsValid}

abbrev is_clean : SequenceStatus → Bool
is_clean first = true
is_clean in_order = true
is_clean gap = false
is_clean duplicate = false
is_clean reordered = false
is_clean untracked = false

-- A packet without an issue: the first of its source or the next, and received no earlier than sent.
pub record IsClean (seen : ReceivedPacket × SequenceObservation) : Type 0 where
  pub status : is_clean seen.1.status ≡ true
  pub sent : seen.0.packet.header.source_timestamp_ns ≤ seen.0.receive_timestamp_ns

abbrev pub record_all :
    SourceHealthState → List (ReceivedPacket × SequenceObservation) → SourceHealthState
record_all s [] = s
record_all s (seen ∷ rest) = record_all (record_packet s seen.0 seen.1) rest

-- The latest of a time and the receive times.
abbrev pub latest : ℕ → List (ReceivedPacket × SequenceObservation) → ℕ
latest t [] = t
latest t (seen ∷ rest) = latest (max seen.0.receive_timestamp_ns t) rest

-- After `n` packets without an issue, the last of them received at `last`.
record Cleaned (n last : ℕ) (before after : SourceHealthState) : Type 0 where
  since :
      after.healthy_packets_since_issue ≡ min (before.healthy_packets_since_issue + n) (2 ^ 64 - 1)
  received : after.packets_received ≡ min (before.packets_received + n) (2 ^ 64 - 1)
  time : after.last_receive_timestamp_ns ≡ last
  issue : after.issue_seen ≡ before.issue_seen
  issue_time : after.last_issue_timestamp_ns ≡ before.last_issue_timestamp_ns

clean-status :
    (status : SequenceStatus) (s : SourceHealthState) (missing t : ℕ)
    → is_clean status ≡ true
    → record_status status s false missing t ≡ conclude s false t
unfolding record_status
clean-status first s missing t e = refl
clean-status in_order s missing t e = refl
clean-status gap s missing t e = absurd (ground (arith, e))
clean-status duplicate s missing t e = absurd (ground (arith, e))
clean-status reordered s missing t e = absurd (ground (arith, e))
clean-status untracked s missing t e = absurd (ground (arith, e))

-- The record of an arrival with its latency.
clean-latency :
    (s : SourceHealthState) (p : ReceivedPacket)
    → p.packet.header.source_timestamp_ns ≤ p.receive_timestamp_ns
    → record_latency s p ≡ (
      record s {
        latest_latency_ns = p.receive_timestamp_ns - p.packet.header.source_timestamp_ns;
        maximum_latency_ns =
            max s.maximum_latency_ns (p.receive_timestamp_ns - p.packet.header.source_timestamp_ns);
      },
      false,
    )
unfolding record_latency
clean-latency s p le =
    let on_time : ltb p.receive_timestamp_ns p.packet.header.source_timestamp_ns ≡ false =
      ground (arith, le) in
    rw on_time refl

saturated : (n : ℕ) → n ≤ u64_max → saturating_increment n ≡ min (n + 1) (2 ^ 64 - 1)
saturated n le = ground (arith, le)

-- The parts of `record_packet`.
record_packet-parts :
    (s : SourceHealthState) (p : ReceivedPacket) (o : SequenceObservation) (t : ℕ)
    → max p.receive_timestamp_ns s.last_receive_timestamp_ns ≡ t
    → record_packet s p o
      ≡ record_status o.status
          (record_latency (record_arrival s t) p).0
          (record_latency (record_arrival s t) p).1
          o.missing_samples
          t
unfolding record_packet record_arrival record_latency record_status
record_packet-parts s p o t e = rw (sym e) refl

one-Cleaned :
    (s : SourceHealthState) (p : ReceivedPacket) (o : SequenceObservation)
    → IsValid s
    → IsClean (p, o)
    → Cleaned 1 (max p.receive_timestamp_ns s.last_receive_timestamp_ns) s (record_packet s p o)
unfolding record_arrival record_recent_timestamp conclude
one-Cleaned s p o v clean =
    let t = max p.receive_timestamp_ns s.last_receive_timestamp_ns in
    subst (Cleaned 1 t s)
      (sym (
        record_packet-parts s p o t refl
        ∙ ap {A = SourceHealthState × Bool}
            (λ r. record_status o.status r.0 r.1 o.missing_samples t)
            (clean-latency (record_arrival s t) p clean.sent)
        ∙ clean-status o.status _ o.missing_samples t clean.status))
      (record {
        since = saturated s.healthy_packets_since_issue (omega (arith, v.recent, v.packets));
        received = saturated s.packets_received v.packets;
        time = refl;
        issue = refl;
        issue_time = refl;
      })

more-Cleaned :
    (n t later : ℕ) (s s' s'' : SourceHealthState)
    → Cleaned 1 t s s'
    → Cleaned n later s' s''
    → Cleaned (suc n) later s s''
more-Cleaned n t later s s' s'' c d = record {
  since = omega (arith, c.since, d.since);
  received = omega (arith, c.received, d.received);
  time = d.time;
  issue = d.issue ∙ c.issue;
  issue_time = d.issue_time ∙ c.issue_time;
}

record_all-Cleaned :
    (s : SourceHealthState) (packets : List (ReceivedPacket × SequenceObservation))
    → IsValid s
    → All IsClean packets
    → Cleaned (length packets) (latest s.last_receive_timestamp_ns packets) s (record_all s packets)
record_all-Cleaned s [] v clean = record {
  since = omega (arith, v.recent, v.packets);
  received = omega (arith, v.packets);
  time = refl;
  issue = refl;
  issue_time = refl;
}
record_all-Cleaned s (seen ∷ rest) v (here, clean) =
    let next = record_packet s seen.0 seen.1 in
    let one = one-Cleaned s seen.0 seen.1 v here in
    let others = record_all-Cleaned next rest (record_packet-IsValid s seen.0 seen.1 v) clean in
    more-Cleaned (length rest) _ _ s next (record_all next rest) one (
      subst (λ t. Cleaned (length rest) (latest t rest) next (record_all next rest)) one.time
        others)

-- When a source is healthy, of the time of its last packet and that of its last issue.
abbrev pub IsRecovered : SourceHealthMonitorConfig → Bool → ℕ → ℕ → ℕ → Type 0
IsRecovered config issue_seen last issue_time now =
    (elapsed_or_zero now last < to_u64 config.offline_after)
    × (elapsed_or_zero now last < to_u64 config.degraded_after)
    × ((issue_seen ≡ false) ⊎ (to_u64 config.recovery_after ≤ elapsed_or_zero now issue_time))

counted-healthy :
    (config : SourceHealthMonitorConfig) (s : SourceHealthState) (now : ℕ) (issue_seen : Bool)
    → s.issue_seen ≡ issue_seen
    → config.healthy_after_packets ≤ s.packets_received
    → config.healthy_after_packets ≤ s.healthy_packets_since_issue
    → (evaluate_status config s now ≡ healthy)
      ↔ IsRecovered config issue_seen s.last_receive_timestamp_ns s.last_issue_timestamp_ns now
unfolding evaluate_status
counted-healthy config s now false seen enough since = (
  λ e. (ground (arith, e, seen), ground (arith, e, seen), inl refl),
  λ r. let (a, b, c) = r in ground (arith, a, b, seen, enough),
)
counted-healthy config s now true seen enough since = (
  λ e. (ground (arith, e, seen), ground (arith, e, seen), inr (ground (arith, e, seen))),
  λ r.
      let (a, b, c) = r in
      elim c [
        | inl never ↦ absurd (ground (arith, never))
        | inr le ↦ ground (arith, a, b, le, seen, enough, since)
      ],
)

-- Once a source has sent as many packets without an issue as the configuration asks for, whatever
-- happened before, it is healthy at a time exactly where the latest of its packets is recent enough
-- not to leave it degraded or offline and, if it ever had an issue, the recovery duration has passed
-- since the last one. The record of the source is one that the monitor keeps consistent, and the
-- count asked for fits in 64 bits.
pub record_all-healthy :
    (config : SourceHealthMonitorConfig) (s : SourceHealthState)
    (packets : List (ReceivedPacket × SequenceObservation)) (now : ℕ)
    → IsValid s
    → All IsClean packets
    → config.healthy_after_packets ≤ length packets
    → config.healthy_after_packets < 2 ^ 64
    → (evaluate_status config (record_all s packets) now ≡ healthy)
      ↔ IsRecovered config s.issue_seen
          (latest s.last_receive_timestamp_ns packets)
          s.last_issue_timestamp_ns
          now
record_all-healthy config s packets now v clean enough small =
    let c = record_all-Cleaned s packets v clean in
    subst
      (λ t.
        (evaluate_status config (record_all s packets) now ≡ healthy)
        ↔ IsRecovered config s.issue_seen t s.last_issue_timestamp_ns now)
      c.time
      (subst
        (λ t.
          (evaluate_status config (record_all s packets) now ≡ healthy)
          ↔ IsRecovered config s.issue_seen (record_all s packets).last_receive_timestamp_ns t now)
        c.issue_time
        (counted-healthy config (record_all s packets) now s.issue_seen c.issue
          (omega (arith, c.received, enough, small)) (omega (arith, c.since, enough, small))))
