-- ===== src/Runtime/Tracker/Refine.antt =====
-- sensor_stream_tracker.cpp, lines 72 to 127: one step of a source against its history, branch by
-- branch.
use driveflow_runtime.Prelude.{
  ℕ, ◌+◌, ◌-◌, ◌*◌, ◌%◌, ◌^◌, ◌≤◌, ◌<◌, max, ◌≡◌, ap, subst, ◌∙◌, inl, inr, true, false, bit_or,
  bit_and, ◌∷◌, arith, leb, if◌then◌else◌, Bool-cases,
}
use native.Mathlib.Nat.{one-le-pow}
use native.Mathlib.Decide.{dec_lt}
use driveflow_runtime.Prelude.Bits.{testbit, bit_and-pow}
use driveflow_runtime.Runtime.Received.{increment}
use driveflow_runtime.Runtime.Tracker.Defs.{
  SourceState, SensorStreamMetrics, duplicate, Advance, advance, advance_forward, advance_backward,
}
use driveflow_runtime.Runtime.Tracker.History.{
  contains, History, position, remember_at, judge_at, remember, judge, bit, Shows, All-le,
  forward-window, fresh-window, late-window, past-window, repeat-window,
}

abbrev Tracks : History → ℕ → ℕ → Advance → Type 0
Tracks h n p a = Shows (remember_at h p) a.state × (a.observation ≡ judge_at h n p)

module _ (h : History) (s : SourceState) (m : SensorStreamMetrics) (n : ℕ) (shows : Shows h s) where
  forward-Shows :
      (d : ℕ) (recent : ℕ)
      → 0 < d
      → n ≡ (h.top + d) % 2 ^ 64
      → ((k : ℕ)
          → k < 64
          → testbit recent k ≡ bit (contains (h.top + d - k) ((h.top + d) ∷ h.seen)))
      → Shows
          (record { top = h.top + d; seen = (h.top + d) ∷ h.seen })
          (record s { highest_sequence = n; recent_sequences = recent })
  unfolding contains
  forward-Shows d recent pos e window = record {
    highest = e;
    room = omega (arith, shows.room);
    below = (omega arith, All-le h.top (h.top + d) h.seen (omega arith) shows.below);
    top_seen = ground arith;
    window = window;
  }

  behind-Shows :
      (p : ℕ) (recent : ℕ)
      → p ≤ h.top
      → ((k : ℕ) → k < 64 → testbit recent k ≡ bit (contains (h.top - k) (p ∷ h.seen)))
      → Shows (record { top = h.top; seen = p ∷ h.seen }) (record s { recent_sequences = recent })
  unfolding contains
  behind-Shows p recent le window = record {
    highest = shows.highest;
    room = shows.room;
    below = (le, shows.below);
    top_seen = ground (arith, shows.top_seen);
    window = window;
  }

  to_forward :
      (d : ℕ) → record { top = h.top + d; seen = (h.top + d) ∷ h.seen } ≡ remember_at h (h.top + d)
  unfolding remember_at
  to_forward d = λ i. record { top = grows i; seen = (h.top + d) ∷ h.seen }
    where
      grows : h.top + d ≡ max h.top (h.top + d)
      grows = omega arith

  to_behind : (p : ℕ) → p ≤ h.top → record { top = h.top; seen = p ∷ h.seen } ≡ remember_at h p
  unfolding remember_at
  to_behind p le = λ i. record { top = stays i; seen = p ∷ h.seen }
    where
      stays : h.top ≡ max h.top p
      stays = omega arith

  abbrev forward_recent : ℕ → ℕ
  forward_recent d = if leb 64 d then 1 else bit_or (s.recent_sequences * 2 ^ d % 2 ^ 64) 1

  forward_recent-window :
      (d k : ℕ)
      → 0 < d
      → k < 64
      → testbit (forward_recent d) k ≡ bit (contains (h.top + d - k) ((h.top + d) ∷ h.seen))
  forward_recent-window d k pos small = elim (Bool-cases (leb 64 d)) [
    | inl far ↦ rw far (fresh-window h s shows d k (ground arith) small)
    | inr near ↦ rw near (forward-window h s shows d k pos small)
  ]

  advance_forward-state :
      (d : ℕ)
      → (advance_forward s m n d).state
        ≡ record s { highest_sequence = n; recent_sequences = forward_recent d }
  unfolding advance_forward
  advance_forward-state d = ground arith

  advance_forward-observation :
      (d : ℕ) → 0 < d → (advance_forward s m n d).observation ≡ judge_at h n (h.top + d)
  unfolding advance_forward judge_at
  advance_forward-observation d pos = ground arith

  advance_forward-Tracks :
      (d : ℕ) → 0 < d → n ≡ (h.top + d) % 2 ^ 64 → Tracks h n (h.top + d) (advance_forward s m n d)
  advance_forward-Tracks d pos e = (
    subst (λ g. Shows g (advance_forward s m n d).state) (to_forward d)
        (rw (advance_forward-state d) (
          forward-Shows d (forward_recent d) pos e
            (λ k small. forward_recent-window d k pos small))),
    advance_forward-observation d pos,
  )

  backward :
      (b recent : ℕ)
      → ((k : ℕ) → k < 64 → testbit recent k ≡ bit (contains (h.top - k) ((h.top - b) ∷ h.seen)))
      → Shows (remember_at h (h.top - b)) (record s { recent_sequences = recent })
  backward b recent window =
      subst (λ g. Shows g (record s { recent_sequences = recent }))
        (to_behind (h.top - b) (omega arith)) (behind-Shows (h.top - b) recent (omega arith) window)

  -- The bit that the mask picks is the history's.
  masked :
      (b : ℕ)
      → b < 64
      → bit_and s.recent_sequences (2 ^ b) ≡ bit (contains (h.top - b) h.seen) * 2 ^ b
  masked b small =
      bit_and-pow s.recent_sequences b ∙ ap (λ (t : ℕ). t * 2 ^ b) (shows.window b small)

  backward_again :
      (b : ℕ)
      → 0 < b
      → b < 64
      → contains (h.top - b) h.seen ≡ true
      → Tracks h n (h.top - b) (advance_backward s m n b)
  unfolding advance_backward judge_at
  backward_again b pos near again = (
    rw stays (
        backward b s.recent_sequences
          (λ k small. repeat-window h s shows (h.top - b) k again small)),
    ground (arith, again, shows.room, masked b near, one-le-pow b 2),
  )
    where
      stays : (advance_backward s m n b).state ≡ s
      stays = ground (arith, again, masked b near, one-le-pow b 2)

  backward_late :
      (b : ℕ)
      → 0 < b
      → b < 64
      → contains (h.top - b) h.seen ≡ false
      → Tracks h n (h.top - b) (advance_backward s m n b)
  unfolding advance_backward judge_at
  backward_late b pos near late = (
    rw marked (
        backward b (bit_or s.recent_sequences (2 ^ b))
          (λ k small. late-window h s shows b k near small)),
    ground (arith, late, shows.room, masked b near),
  )
    where
      marked :
          (advance_backward s m n b).state
          ≡ record s { recent_sequences = bit_or s.recent_sequences (2 ^ b) }
      marked = ground (arith, late, masked b near)

  backward_far :
      (b : ℕ) → 0 < b → 64 ≤ b → b ≤ h.top → Tracks h n (h.top - b) (advance_backward s m n b)
  unfolding advance_backward judge_at
  backward_far b pos far le = (
    rw stays (
        backward b s.recent_sequences
          (λ k small. past-window h s shows (h.top - b) k (omega arith) small)),
    ground arith,
  )
    where
      stays : (advance_backward s m n b).state ≡ s
      stays = ground arith

  advance_backward-Tracks :
      (b : ℕ) → 0 < b → b ≤ h.top → Tracks h n (h.top - b) (advance_backward s m n b)
  advance_backward-Tracks b pos le = elim (dec_lt b 64) [
    | yes near ↦ elim (Bool-cases (contains (h.top - b) h.seen)) [
      | inl again ↦ backward_again b pos near again
      | inr late ↦ backward_late b pos near late
    ]
    | no far ↦ backward_far b pos (omega arith) le
  ]

  same-Tracks :
      n ≡ h.top % 2 ^ 64
      → Shows (remember_at h h.top) s
        × (record { status = duplicate; sequence_number = n; missing_samples = 0 }
            ≡ judge_at h n h.top)
  unfolding judge_at
  same-Tracks e = (
    subst (λ g. Shows g s) (to_behind h.top (omega arith))
        (behind-Shows h.top s.recent_sequences (omega arith)
          (λ k small. repeat-window h s shows h.top k shows.top_seen small)),
    ground (arith, shows.top_seen),
  )

  abbrev ahead : ℕ
  ahead = (n + 2 ^ 64 - h.top % 2 ^ 64) % 2 ^ 64

  position_same : ahead ≡ 0 → position h.top n ≡ h.top
  unfolding position
  position_same e = ground arith

  position_forward : ahead < 2 ^ 63 → position h.top n ≡ h.top + ahead
  unfolding position
  position_forward e = ground arith

  position_behind : 2 ^ 63 ≤ ahead → position h.top n ≡ h.top - (2 ^ 64 - ahead)
  unfolding position
  position_behind e = ground arith

  repeated : Advance
  repeated = record {
    state = s;
    metrics = record m { duplicate_observations = increment m.duplicate_observations };
    observation = record { status = duplicate; sequence_number = n; missing_samples = 0 };
  }

  advance_same : ahead ≡ 0 → advance s m n ≡ repeated
  unfolding advance repeated
  advance_same e = ground (arith, shows.highest)

  advance-ahead : 0 < ahead → ahead < 2 ^ 63 → advance s m n ≡ advance_forward s m n ahead
  unfolding advance
  advance-ahead pos e = ground (arith, shows.highest)

  advance_behind :
      2 ^ 63 ≤ ahead → n < 2 ^ 64 → advance s m n ≡ advance_backward s m n (2 ^ 64 - ahead)
  unfolding advance
  advance_behind e small = ground (arith, shows.highest, distance)
    where
      distance : (h.top % 2 ^ 64 + 2 ^ 64 - n) % 2 ^ 64 ≡ 2 ^ 64 - ahead
      distance = omega arith

  advance-Tracks : n < 2 ^ 64 → Tracks h n (position h.top n) (advance s m n)
  unfolding repeated
  advance-Tracks small = elim (dec_lt 0 ahead) [
    | no same ↦
        rw (position_same (omega arith), advance_same (omega arith)) (same-Tracks (omega arith))
    | yes moved ↦ elim (dec_lt ahead (2 ^ 63)) [
      | yes newer ↦
          rw (position_forward newer, advance-ahead moved newer)
            (advance_forward-Tracks ahead moved (omega arith))
      | no older ↦
          rw (position_behind (omega arith), advance_behind (omega arith) small)
            (advance_backward-Tracks (2 ^ 64 - ahead) (omega arith) (omega (arith, shows.room)))
    ]
  ]

  -- The step of one source whose state shows the history, for a 64-bit number and on every branch:
  -- the new state shows the history with the number remembered, and the report is the history's.
  pub advance-remember :
      n < 2 ^ 64
      → Shows (remember h n) (advance s m n).state × ((advance s m n).observation ≡ judge h n)
  unfolding remember judge
  advance-remember small = advance-Tracks small
