-- ===== src/Runtime/Tracker/Spec.antt =====
-- The reference for the class SensorStreamTracker of sensor_stream_tracker.cpp: a table of whole
-- histories, one for each stream, and what it reports of every packet.
use driveflow_runtime.Prelude.{
  ℕ, ◌^◌, ◌<◌, ◌≡◌, refl, sym, ap, subst, ◌∙◌, inl, inr, Bool-cases, true, false, Option, none,
  some, List, [], ◌∷◌, ◌++◌, arith, leb, if◌then◌else◌, length, All,
}
use driveflow_runtime.Prelude.Result.{ok}
use driveflow_runtime.Runtime.Received.{
  ReceivedPacket, SensorSource, source_eq, identify_sensor_source, increment,
}
use driveflow_runtime.Runtime.Tracker.Defs.{
  SequenceObservation, first, untracked, SourceState, SensorStreamTracker, make_tracker, advance,
  find_state, put_state, admit, observe,
}
use driveflow_runtime.Runtime.Tracker.History.{History, remember, judge, Shows}
use driveflow_runtime.Runtime.Tracker.Refine.{advance-remember}
use driveflow_runtime.Runtime.Tracker.Table.{first_history, first-Shows, advance-source}

pub record Stream : Type 0 where
  pub source : SensorSource
  pub history : History

pub record Streams : Type 0 where
  pub capacity : ℕ
  pub streams : List Stream

-- The history of the source, with the number remembered in it; nothing for a new source.
unfoldable pub recall : SensorSource → List Stream → Option History
recall k [] = none
recall k (x ∷ rest) = if source_eq x.source k then some x.history else recall k rest

unfoldable pub memorize : SensorSource → ℕ → List Stream → List Stream
memorize k n [] = []
memorize k n (x ∷ rest) =
    if source_eq x.source k
    then record x { history = remember x.history n } ∷ rest
    else x ∷ memorize k n rest

-- What becomes of the streams, and what is reported.
unfoldable pub classify : Streams → SensorSource → ℕ → Streams × SequenceObservation
classify a k n = elim (recall k a.streams) [
  | some h ↦ (record a { streams = memorize k n a.streams }, judge h n)
  | none ↦
      if leb a.capacity (length a.streams)
      then (a, record { status = untracked; sequence_number = n; missing_samples = 0 })
      else (
        record a { streams = a.streams ++ record { source = k; history = first_history n } ∷ [] },
        record { status = first; sequence_number = n; missing_samples = 0 },
      )
]

-- The reports of a sequence of packets, by the reference and by the tracker.
unfoldable pub classify_all : Streams → List ReceivedPacket → List SequenceObservation
classify_all a [] = []
classify_all a (p ∷ rest) =
    let (a', o) = classify a (identify_sensor_source p) p.packet.header.sequence_number in
    o ∷ classify_all a' rest

unfoldable pub observe_all : SensorStreamTracker → List ReceivedPacket → List SequenceObservation
observe_all t [] = []
observe_all t (p ∷ rest) = let (t', o) = observe t p in o ∷ observe_all t' rest

-- The table of states shows the streams, entry by entry.
unfoldable pub Matches : List Stream → List SourceState → Type 0
Matches [] [] = Unit
Matches [] (s ∷ states) = ⊥
Matches (x ∷ rest) [] = ⊥
Matches (x ∷ rest) (s ∷ states) = (s.source ≡ x.source) × Shows x.history s × Matches rest states

length-Matches :
    (xs : List Stream) (states : List SourceState) → Matches xs states → length states ≡ length xs
unfolding Matches
length-Matches [] [] m = refl
length-Matches [] (s ∷ states) m = absurd m
length-Matches (x ∷ rest) [] m = absurd m
length-Matches (x ∷ rest) (s ∷ states) m = omega (arith, length-Matches rest states m.2)

Matches-append :
    (xs : List Stream) (states : List SourceState) (x : Stream) (s : SourceState)
    → Matches xs states
    → s.source ≡ x.source
    → Shows x.history s
    → Matches (xs ++ x ∷ []) (states ++ s ∷ [])
unfolding Matches
Matches-append [] [] x s m same shows = (same, shows, tt)
Matches-append [] (y ∷ states) x s m same shows = absurd m
Matches-append (y ∷ rest) [] x s m same shows = absurd m
Matches-append (y ∷ rest) (z ∷ states) x s m same shows =
    (m.0, m.1, Matches-append rest states x s m.2 same shows)

-- What the tracker finds of a source, where the reference recalls `recalled`.
data Found (recalled : Option History) (found : Option SourceState) : Type 0 where
  unknown : recalled ≡ none → found ≡ none → Found recalled found
  known :
      (h : History) (s : SourceState)
      → recalled ≡ some h
      → found ≡ some s
      → Shows h s
      → Found recalled found

recall-Found :
    (k : SensorSource) (xs : List Stream) (states : List SourceState)
    → Matches xs states
    → Found (recall k xs) (find_state k states)
unfolding Matches recall find_state
recall-Found k [] [] m = unknown refl refl
recall-Found k [] (s ∷ states) m = absurd m
recall-Found k (x ∷ rest) [] m = absurd m
recall-Found k (x ∷ rest) (s ∷ states) m = elim (Bool-cases (source_eq x.source k)) [
  | inl same ↦ known x.history s (rw same refl) (rw (ap (λ c. source_eq c k) m.0 ∙ same) refl) m.1
  | inr other ↦ rw (other, ap (λ c. source_eq c k) m.0 ∙ other) (recall-Found k rest states m.2)
]

Matches-memorize :
    (k : SensorSource) (n : ℕ) (h : History) (xs : List Stream) (states : List SourceState)
    (s new : SourceState)
    → Matches xs states
    → recall k xs ≡ some h
    → find_state k states ≡ some s
    → new.source ≡ s.source
    → Shows (remember h n) new
    → Matches (memorize k n xs) (put_state k new states)
unfolding Matches recall memorize find_state put_state
Matches-memorize k n h [] [] s new m recalled found same shows = tt
Matches-memorize k n h [] (y ∷ states) s new m recalled found same shows = absurd m
Matches-memorize k n h (x ∷ rest) [] s new m recalled found same shows = absurd m
Matches-memorize k n h (x ∷ rest) (y ∷ states) s new m recalled found same shows =
    let alike : source_eq y.source k ≡ source_eq x.source k = ap (λ c. source_eq c k) m.0 in
    elim (Bool-cases (source_eq x.source k)) [
      | inl here ↦
          let found_y : y ≡ s = ground (arith, found, here, alike) in
          let recalled_x : h ≡ x.history = ground (arith, recalled, here) in
          rw (here, alike ∙ here)
            (
              same ∙ sym (ap (λ z. z.source) found_y) ∙ m.0,
              subst (λ g. Shows (remember g n) new) recalled_x shows,
              m.2,
            )
      | inr other ↦
          rw (other, alike ∙ other)
            (
              m.0,
              m.1,
              Matches-memorize k n h rest states s new m.2 (ground (arith, other))
                  (ground (arith, other, alike)) same shows,
            )
    ]

record Represents (a : Streams) (t : SensorStreamTracker) : Type 0 where
  capacity : t.max_sources ≡ a.capacity
  matches : Matches a.streams t.sources

admit-classify :
    (a : Streams) (t : SensorStreamTracker) (k : SensorSource) (n : ℕ)
    → Represents a t
    → recall k a.streams ≡ none
    → n < 2 ^ 64
    → Represents (classify a k n).0 (admit t k n).0 × ((admit t k n).1 ≡ (classify a k n).1)
unfolding admit classify
admit-classify a t k n r new small =
    let lengths = length-Matches a.streams t.sources r.matches in
    elim (Bool-cases (leb a.capacity (length a.streams))) [
      | inl full ↦
          let full' : leb t.max_sources (length t.sources) ≡ true =
            ground (arith, full, lengths, r.capacity) in
          rw (new, full, full', admit, classify)
            (record { capacity = r.capacity; matches = r.matches }, refl)
      | inr room ↦
          let room' : leb t.max_sources (length t.sources) ≡ false =
            ground (arith, room, lengths, r.capacity) in
          rw (new, room, room', admit, classify)
            (
              record {
                capacity = r.capacity;
                matches =
                    Matches-append a.streams t.sources
                      (record { source = k; history = first_history n })
                      (record { source = k; highest_sequence = n; recent_sequences = 1 }) r.matches
                      refl (first-Shows k n small);
              },
              refl,
            )
    ]

observe-classify :
    (a : Streams) (t : SensorStreamTracker) (p : ReceivedPacket)
    → Represents a t
    → p.packet.header.sequence_number < 2 ^ 64
    → Represents
        (classify a (identify_sensor_source p) p.packet.header.sequence_number).0
        (observe t p).0
      × ((observe t p).1
          ≡ (classify a (identify_sensor_source p) p.packet.header.sequence_number).1)
unfolding observe classify
observe-classify a t p r small =
    let k = identify_sensor_source p in
    let n = p.packet.header.sequence_number in
    let seen = record t.metrics { packets_observed = increment t.metrics.packets_observed } in
    elim (recall-Found k a.streams t.sources r.matches) [
      | unknown recalled found ↦
          rw (found, observe)
            (admit-classify a (record t { metrics = seen }) k n
              (record { capacity = r.capacity; matches = r.matches }) recalled small)
      | known h s recalled found shows ↦
          let step = advance-remember h s seen n shows small in
          rw (recalled, found, observe, classify)
            (
              record {
                capacity = r.capacity;
                matches =
                    Matches-memorize k n h a.streams t.sources s (advance s seen n).state r.matches
                      recalled found (advance-source s seen n) step.0;
              },
              step.1,
            )
    ]

abbrev Is64Bit : ReceivedPacket → Type 0
Is64Bit p = p.packet.header.sequence_number < 2 ^ 64

observe_all-from :
    (a : Streams) (t : SensorStreamTracker) (packets : List ReceivedPacket)
    → Represents a t
    → All Is64Bit packets
    → observe_all t packets ≡ classify_all a packets
unfolding observe_all classify_all
observe_all-from a t [] r small = refl
observe_all-from a t (p ∷ rest) r small =
    let step = observe-classify a t p r small.0 in
    ap (λ o. o ∷ observe_all (observe t p).0 rest) step.1
    ∙ ap (◌∷◌ (classify a (identify_sensor_source p) p.packet.header.sequence_number).1) (
        observe_all-from (classify a (identify_sensor_source p) p.packet.header.sequence_number).0
          (observe t p).0 rest step.0 small.1)

made-Represents :
    (capacity : ℕ) (t : SensorStreamTracker)
    → make_tracker capacity ≡ ok t
    → Represents (record { capacity = capacity; streams = [] }) t
unfolding make_tracker Matches
made-Represents capacity t e =
    let size : t.max_sources ≡ capacity = ground (arith, e) in
    let empty : t.sources ≡ [] = ground (arith, e) in
    record { capacity = size; matches = subst (Matches []) (sym empty) tt }

-- A new tracker reports of any sequence of packets with 64-bit numbers, of any sources, what the
-- reference reports that keeps every number of every stream: a packet is judged by the history of
-- its own source alone, a new source is a first observation while there is room, and untracked from
-- then on.
pub observe_all-classify_all :
    (capacity : ℕ) (t : SensorStreamTracker) (packets : List ReceivedPacket)
    → make_tracker capacity ≡ ok t
    → All Is64Bit packets
    → observe_all t packets ≡ classify_all (record { capacity = capacity; streams = [] }) packets
observe_all-classify_all capacity t packets e small =
    observe_all-from _ t packets (made-Represents capacity t e) small
