-- ===== src/Runtime/Health/Ring.antt =====
-- source_health_monitor.cpp: the 64 most recent timestamps in their ring, and the rate over them.
use driveflow_runtime.Prelude.{
  ℕ, zero, suc, ◌+◌, ◌-◌, ◌%◌, ◌^◌, ◌≤◌, ◌<◌, min, ◌≡◌, refl, ap, ◌∙◌, List, [], ◌∷◌, arith, ltb,
  leb, ◌==◌, if◌then◌else◌, length, get_or, set, length-set, get_or-set_self, get_or-set_ne,
}
use driveflow_runtime.Runtime.Received.{SensorSource}
use driveflow_runtime.Runtime.Health.Defs.{
  SourceHealthState, record_recent_timestamp, Rate, zero_hz, per_second, current_rate_hz, new_state,
}

-- The ring holds the first 64 of `ts`, the timestamps recorded, newest first.
pub record Holds (ts : List ℕ) (s : SourceHealthState) : Type 0 where
  pub size : length s.recent_timestamps ≡ 64
  pub counted : s.recent_timestamp_count ≡ min (length ts) 64
  pub index : s.next_timestamp_index < 64
  pub unwrapped : s.recent_timestamp_count < 64 → s.next_timestamp_index ≡ s.recent_timestamp_count
  pub entry :
      (age : ℕ)
      → age < s.recent_timestamp_count
      → get_or s.recent_timestamps ((s.next_timestamp_index + 63 - age) % 64) 0 ≡ get_or ts age 0

entry-set :
    (ts : List ℕ) (s : SourceHealthState) (t : ℕ) (h : Holds ts s) (age : ℕ)
    → age < min (s.recent_timestamp_count + 1) 64
    → get_or
        (set s.recent_timestamps s.next_timestamp_index t)
        (((s.next_timestamp_index + 1) % 64 + 63 - age) % 64)
        0
      ≡ get_or (t ∷ ts) age 0
entry-set ts s t h zero lt =
    ap (λ (i : ℕ). get_or (set s.recent_timestamps s.next_timestamp_index t) i 0) same
    ∙ get_or-set_self s.recent_timestamps s.next_timestamp_index t 0
        (omega (arith, h.index, h.size))
  where
    same : ((s.next_timestamp_index + 1) % 64 + 63 - 0) % 64 ≡ s.next_timestamp_index
    same = omega (arith, h.index)
entry-set ts s t h (suc age) lt =
    ap (λ (i : ℕ). get_or (set s.recent_timestamps s.next_timestamp_index t) i 0) same
    ∙ get_or-set_ne s.recent_timestamps s.next_timestamp_index
        ((s.next_timestamp_index + 63 - age) % 64) t 0 (omega (arith, h.index, lt))
    ∙ h.entry age (omega (arith, lt))
  where
    same :
        ((s.next_timestamp_index + 1) % 64 + 63 - suc age) % 64
        ≡ (s.next_timestamp_index + 63 - age) % 64
    same = omega (arith, h.index, lt)

-- Recording `t` makes the ring hold `t` before the timestamps that it held.
record_recent_timestamp-Holds :
    (ts : List ℕ) (s : SourceHealthState) (t : ℕ)
    → Holds ts s
    → Holds (t ∷ ts) (record_recent_timestamp s t)
unfolding record_recent_timestamp
record_recent_timestamp-Holds ts s t h = record {
  size = length-set s.recent_timestamps s.next_timestamp_index t ∙ h.size;
  counted = omega (arith, h.counted);
  index = omega arith;
  unwrapped = λ lt. omega (arith, h.index, h.unwrapped, h.counted);
  entry = λ age lt. entry-set ts s t h age lt;
}

new_state-Holds : (source : SensorSource) → Holds [] (new_state source)
unfolding new_state
new_state-Holds source = record {
  size = refl;
  counted = refl;
  index = omega arith;
  unwrapped = λ lt. refl;
  entry = λ age lt. omega (arith, lt);
}

oldest_index-age :
    (next count : ℕ)
    → next < 64
    → (count < 64 → next ≡ count)
    → 1 ≤ count
    → count ≤ 64
    → (if ltb count 64 then 0 else next) ≡ (next + 63 - (count - 1)) % 64
oldest_index-age next count lt unwrapped pos le = ground arith

entry_oldest :
    (ts : List ℕ) (s : SourceHealthState)
    → Holds ts s
    → 2 ≤ length ts
    → get_or s.recent_timestamps
        (if ltb s.recent_timestamp_count 64 then 0 else s.next_timestamp_index)
        0
      ≡ get_or ts (min (length ts) 64 - 1) 0
entry_oldest ts s h two =
    ap (λ (i : ℕ). get_or s.recent_timestamps i 0)
      (oldest_index-age s.next_timestamp_index s.recent_timestamp_count h.index h.unwrapped
        (omega (arith, h.counted, two)) (omega (arith, h.counted)))
    ∙ h.entry (s.recent_timestamp_count - 1) (omega (arith, h.counted, two))
    ∙ ap (λ (n : ℕ). get_or ts (n - 1) 0) h.counted

entry_newest :
    (ts : List ℕ) (s : SourceHealthState)
    → Holds ts s
    → 2 ≤ length ts
    → get_or s.recent_timestamps ((s.next_timestamp_index + 64 - 1) % 64) 0 ≡ get_or ts 0 0
entry_newest ts s h two =
    ap (λ (i : ℕ). get_or s.recent_timestamps i 0) same ∙ h.entry 0 (omega (arith, h.counted, two))
  where
    same : (s.next_timestamp_index + 64 - 1) % 64 ≡ (s.next_timestamp_index + 63 - 0) % 64
    same = omega arith

-- The documented rate of `count` timestamps from `oldest` to `newest`: nothing is measured of fewer
-- than two, or where no time has passed.
abbrev pub window_rate : ℕ → ℕ → ℕ → Rate
window_rate count newest oldest =
    if ltb count 2
    then zero_hz
    else if leb newest oldest
    then zero_hz
    else per_second (count - 1) (newest - oldest)

rate_of :
    (count n o newest oldest : ℕ)
    → (2 ≤ count → n ≡ newest)
    → (2 ≤ count → o ≡ oldest)
    → oldest ≤ newest
    → newest < 2 ^ 64
    → (if ltb count 2
        then zero_hz
        else if ((n + 2 ^ 64 - o) % 2 ^ 64) == 0
        then zero_hz
        else per_second (count - 1) ((n + 2 ^ 64 - o) % 2 ^ 64))
      ≡ window_rate count newest oldest
rate_of count n o newest oldest new old le bound = ground arith

current_rate_hz-Holds :
    (ts : List ℕ) (s : SourceHealthState)
    → Holds ts s
    → get_or ts (min (length ts) 64 - 1) 0 ≤ get_or ts 0 0
    → get_or ts 0 0 < 2 ^ 64
    → current_rate_hz s
      ≡ window_rate (min (length ts) 64) (get_or ts 0 0) (get_or ts (min (length ts) 64 - 1) 0)
unfolding current_rate_hz
current_rate_hz-Holds ts s h le bound =
    let many : 2 ≤ s.recent_timestamp_count → 2 ≤ length ts =
      λ two. omega (arith, h.counted, two) in
    rate_of s.recent_timestamp_count _ _ (get_or ts 0 0) (get_or ts (min (length ts) 64 - 1) 0)
      (λ two. entry_newest ts s h (many two)) (λ two. entry_oldest ts s h (many two)) le bound
    ∙ ap (λ (n : ℕ). window_rate n (get_or ts 0 0) (get_or ts (min (length ts) 64 - 1) 0)) h.counted

-- A new source with the timestamps `ts` recorded, the last of them first.
unfoldable pub recorded : SensorSource → List ℕ → SourceHealthState
recorded source [] = new_state source
recorded source (t ∷ ts) = record_recent_timestamp (recorded source ts) t

recorded-Holds : (source : SensorSource) (ts : List ℕ) → Holds ts (recorded source ts)
unfolding recorded
recorded-Holds source [] = new_state-Holds source
recorded-Holds source (t ∷ ts) =
    record_recent_timestamp-Holds ts (recorded source ts) t (recorded-Holds source ts)

-- However many timestamps a source has recorded, none included, its rate is that of the 64 most
-- recent ones or of as many as there are: zero of fewer than two or where the newest is not after
-- the oldest, and otherwise the number of intervals between them over the time from the oldest to
-- the newest. The timestamps are listed newest first; of those 64 the oldest is at most the newest,
-- which has 64 bits.
pub current_rate_hz-recorded :
    (source : SensorSource) (ts : List ℕ)
    → get_or ts (min (length ts) 64 - 1) 0 ≤ get_or ts 0 0
    → get_or ts 0 0 < 2 ^ 64
    → current_rate_hz (recorded source ts)
      ≡ window_rate (min (length ts) 64) (get_or ts 0 0) (get_or ts (min (length ts) 64 - 1) 0)
current_rate_hz-recorded source ts le bound =
    current_rate_hz-Holds ts (recorded source ts) (recorded-Holds source ts) le bound
