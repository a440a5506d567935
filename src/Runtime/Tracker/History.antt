-- ===== src/Runtime/Tracker/History.antt =====
-- The reference for sensor_stream_tracker.cpp: a stream's numbers as positions that do not wrap, and
-- every position ever observed. The bitmap is that history, looked at 64 positions back.
use driveflow_runtime.Prelude.{
  ℕ, zero, suc, ◌+◌, ◌-◌, ◌*◌, ◌%◌, ◌^◌, ◌≤◌, ◌<◌, max, ◌≡◌, refl, ap, ◌∙◌, inl, inr, Bool, true,
  false, ◌||◌, ◌&&◌, bit_or, List, [], ◌∷◌, arith, ltb, ◌==◌, if◌then◌else◌, All, Bool-cases,
}
use native.Mathlib.Decide.{dec_lt}
use driveflow_runtime.Prelude.Bits.{testbit, testbit-zero, testbit-bit_or, testbit-shl, testbit-mod}
use driveflow_runtime.Runtime.Tracker.Defs.{
  SourceState, SequenceObservation, in_order, gap, duplicate, reordered,
}

unfoldable pub contains : ℕ → List ℕ → Bool
contains p [] = false
contains p (x ∷ xs) = p == x || contains p xs

pub record History : Type 0 where
  pub top : ℕ
  pub seen : List ℕ

-- The position with number `n` that is nearest to the top; at the half range, the one behind it.
unfoldable pub position : ℕ → ℕ → ℕ
position top n =
    let ahead = (n + 2 ^ 64 - top % 2 ^ 64) % 2 ^ 64 in
    if ltb ahead (2 ^ 63) then top + ahead else top - (2 ^ 64 - ahead)

unfoldable pub remember_at : History → ℕ → History
remember_at h p = record { top = max h.top p; seen = p ∷ h.seen }

-- What an observer of the history reports of number `n` at position `p`.
unfoldable pub judge_at : History → ℕ → ℕ → SequenceObservation
judge_at h n p =
    if ltb h.top p
    then (if p == h.top + 1
        then record { status = in_order; sequence_number = n; missing_samples = 0 }
        else record { status = gap; sequence_number = n; missing_samples = p - h.top - 1 })
    else if contains p h.seen && ltb h.top (p + 64)
    then record { status = duplicate; sequence_number = n; missing_samples = 0 }
    else record { status = reordered; sequence_number = n; missing_samples = 0 }

unfoldable pub remember : History → ℕ → History
remember h n = remember_at h (position h.top n)

unfoldable pub judge : History → ℕ → SequenceObservation
judge h n = judge_at h n (position h.top n)

abbrev pub bit : Bool → ℕ
bit b = if b then 1 else 0

-- The state of a source shows the history.
pub record Shows (h : History) (s : SourceState) : Type 0 where
  pub highest : s.highest_sequence ≡ h.top % 2 ^ 64
  pub room : 2 ^ 64 ≤ h.top
  pub below : All (λ p. p ≤ h.top) h.seen
  pub top_seen : contains h.top h.seen ≡ true
  pub window : (k : ℕ) → k < 64 → testbit s.recent_sequences k ≡ bit (contains (h.top - k) h.seen)

pub contains-above :
    (top p : ℕ) (xs : List ℕ) → All (λ x. x ≤ top) xs → top < p → contains p xs ≡ false
unfolding contains
contains-above top p [] a h = refl
contains-above top p (x ∷ xs) a h = ground (arith, contains-above top p xs a.1)

pub All-le : (m n : ℕ) (xs : List ℕ) → m ≤ n → All (λ x. x ≤ m) xs → All (λ x. x ≤ n) xs
All-le m n [] h a = tt
All-le m n (x ∷ xs) h a = (omega arith, All-le m n xs h a.1)

-- The bit at `k` after a shift by `d`, and the position that it stands for.
pub shifted-window :
    (top r d k : ℕ) (seen : List ℕ)
    → All (λ p. p ≤ top) seen
    → 64 ≤ top
    → ((j : ℕ) → j < 64 → testbit r j ≡ bit (contains (top - j) seen))
    → 0 < k
    → k < 64
    → testbit (r * 2 ^ d % 2 ^ 64) k ≡ bit (contains (top + d - k) seen)
shifted-window top r d k seen below room window pos small =
    testbit-mod 64 (r * 2 ^ d) k small
    ∙ (testbit-shl r d k ∙ elim (dec_lt k d) [
      | yes newer ↦ ground (arith, contains-above top (top + d - k) seen below)
      | no older ↦
          let same : top - (k - d) ≡ top + d - k = omega arith in
          ground (arith, window (k - d) (omega arith), same)
    ])

module _ (h : History) (s : SourceState) (shows : Shows h s) where
  -- A forward move by `d`.
  pub forward-window :
      (d k : ℕ)
      → 0 < d
      → k < 64
      → testbit (bit_or (s.recent_sequences * 2 ^ d % 2 ^ 64) 1) k
        ≡ bit (contains (h.top + d - k) ((h.top + d) ∷ h.seen))
  unfolding contains
  forward-window d zero pos small =
      testbit-bit_or (s.recent_sequences * 2 ^ d % 2 ^ 64) 0 0 ∙ ground arith
  forward-window d (suc k) pos small =
      testbit-bit_or (s.recent_sequences * 2 ^ d % 2 ^ 64) 0 (suc k)
      ∙ ground (
        arith,
        shifted-window h.top s.recent_sequences d (suc k) h.seen shows.below
            (omega (arith, shows.room)) shows.window (omega arith) small,
      )

  -- A forward move that leaves the whole window behind.
  pub fresh-window :
      (d k : ℕ)
      → 64 ≤ d
      → k < 64
      → testbit 1 k ≡ bit (contains (h.top + d - k) ((h.top + d) ∷ h.seen))
  unfolding contains testbit
  fresh-window d zero far small = ground arith
  fresh-window d (suc k) far small =
      ground (arith, testbit-zero k, contains-above h.top (h.top + d - suc k) h.seen shows.below)

  -- A late number within the window.
  pub late-window :
      (b k : ℕ)
      → b < 64
      → k < 64
      → testbit (bit_or s.recent_sequences (2 ^ b)) k
        ≡ bit (contains (h.top - k) ((h.top - b) ∷ h.seen))
  unfolding contains
  late-window b k bs ks =
      testbit-bit_or s.recent_sequences b k ∙ ground (arith, shows.room, shows.window k ks)

  -- One behind the window changes no bit of it.
  pub past-window :
      (p k : ℕ)
      → p + 64 ≤ h.top
      → k < 64
      → testbit s.recent_sequences k ≡ bit (contains (h.top - k) (p ∷ h.seen))
  unfolding contains
  past-window p k far ks = ground (arith, shows.window k ks)

  pub repeat-window :
      (b k : ℕ)
      → contains b h.seen ≡ true
      → k < 64
      → testbit s.recent_sequences k ≡ bit (contains (h.top - k) (b ∷ h.seen))
  unfolding contains
  repeat-window b k again ks = elim (Bool-cases (h.top - k == b)) [
    | inl e ↦
        let same : h.top - k ≡ b = ground arith in
        ground (arith, shows.window k ks, ap (λ (t : ℕ). contains t h.seen) same)
    | inr ne ↦ ground (arith, shows.window k ks)
  ]
