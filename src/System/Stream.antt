-- ===== src/System/Stream.antt =====
-- A sensor stream from end to end: run_simulator's packets (src/simulator/sensor_simulator.cpp) as
-- they reach `poll` (src/runtime/epoll_receiver.cpp) and the stream tracker, over a network that
-- delivers every datagram in the order sent.
use driveflow_runtime.Prelude.{
  ℕ, zero, suc, ◌+◌, ◌-◌, ◌^◌, ◌≤◌, ◌<◌, ◌≡◌, refl, sym, ap, subst, ◌∙◌, inl, inr, Bool, Bool-cases,
  false, ◌||◌, none, some, List, [], ◌∷◌, map, arith, length, if◌then◌else◌,
}
use driveflow_runtime.Prelude.Result.{Result, ok, throws}
use driveflow_runtime.Net.{Ipv4Endpoint}
use driveflow_runtime.Protocol.Packet.{Packet, decode_packet}
use driveflow_runtime.Protocol.Packet.Layout.{layout}
use driveflow_runtime.Protocol.Sensor.{message_type}
use driveflow_runtime.Runtime.Received.{ReceivedPacket, identify_sensor_source}
use driveflow_runtime.Runtime.Tracker.{SensorStreamTracker, make_tracker}
use driveflow_runtime.Runtime.Tracker.Stream.{
  observe_each, GoesUp, last_number, observe_each_complete,
}
use driveflow_runtime.Simulator.Config.{
  SensorType, imu, gnss, camera_meta, other, FaultInjectionConfig,
}
use driveflow_runtime.Simulator.Faults.{
  matches_interval, PendingPacket, make_injector, pending_packet,
}
use driveflow_runtime.Simulator.Faults.Order.{inject, survivors, overtaken, inject-overtaken}
use driveflow_runtime.Simulator.Samples.{make_sensor_sample, generate}
use driveflow_runtime.Simulator.Samples.Delivery.{
  generated_packet, generate_delivered, generate-layout, packet-IsBytes, pending_packet-decoded,
}

-- The datagrams that `send_batch` sends for the packets.
unfoldable pub datagrams : List PendingPacket → List (List ℕ)
datagrams [] = []
datagrams (p ∷ rest) =
    if p.duplicate then p.bytes ∷ p.bytes ∷ datagrams rest else p.bytes ∷ datagrams rest

abbrev bytes_of : Result (List ℕ) → List ℕ
bytes_of (ok bytes) = bytes
bytes_of (throws e) = []

-- No packet changes its place.
overtaken-unmarked :
    (config : FaultInjectionConfig) (items : List (ℕ × List ℕ))
    → config.reorder_every ≡ none
    → overtaken (survivors config items) ≡ map (λ p. p.0) (survivors config items)
unfolding survivors overtaken matches_interval
overtaken-unmarked config [] ordered = refl
overtaken-unmarked config ((n, bytes) ∷ rest) ordered =
    ground (arith, ordered, overtaken-unmarked config rest ordered)

message_type_same :
    (sensor : SensorType) (extra n m : ℕ)
    → message_type (make_sensor_sample sensor n extra)
      ≡ message_type (make_sensor_sample sensor m extra)
unfolding message_type make_sensor_sample
message_type_same imu extra n m = refl
message_type_same gnss extra n m = refl
message_type_same camera_meta extra n m = refl
message_type_same (other k) extra n m = refl

-- The last number of a list, or `n`.
unfoldable pub last_of : ℕ → List ℕ → ℕ
last_of n [] = n
last_of n (m ∷ rest) = last_of m rest

-- The packets generated with the numbers from `n` on, `time` giving their timestamps.
unfoldable pub generated : SensorType → ℕ → (ℕ → ℕ) → ℕ → ℕ → List (ℕ × List ℕ)
generated sensor extra time n zero = []
generated sensor extra time n (suc count) =
    (n, bytes_of (generate sensor extra n (time n))) ∷ generated sensor extra time (suc n) count

-- Whether the packet is dropped or corrupted.
abbrev is_harmed : FaultInjectionConfig → ℕ → Bool
is_harmed config n = matches_interval config.drop_every n || matches_interval config.corrupt_every n

-- The numbers from `n` on that are neither dropped nor corrupted.
unfoldable pub unharmed : FaultInjectionConfig → ℕ → ℕ → List ℕ
unharmed config n zero = []
unharmed config n (suc count) =
    if is_harmed config n then unharmed config (suc n) count else n ∷ unharmed config (suc n) count

module _ (source listener : Ipv4Endpoint) (received_at : ℕ → ℕ) where
  abbrev pub arrival : Packet → ReceivedPacket
  arrival q = record {
    packet = q;
    source = source;
    listener = listener;
    receive_timestamp_ns = received_at q.header.sequence_number;
  }

  -- The packets that the receiver accepts of the datagrams.
  unfoldable pub arrivals : List (List ℕ) → List ReceivedPacket
  arrivals [] = []
  arrivals (bytes ∷ rest) = elim (decode_packet bytes).packet [
    | none ↦ arrivals rest
    | some q ↦ arrival q ∷ arrivals rest
  ]

  arrivals_refused :
      (p : PendingPacket) (rest : List PendingPacket)
      → p.duplicate ≡ false
      → (decode_packet p.bytes).packet ≡ none
      → arrivals (datagrams (p ∷ rest)) ≡ arrivals (datagrams rest)
  unfolding arrivals datagrams
  arrivals_refused p rest once refused = rw (once, refused, arrivals) refl

  arrivals_accepted :
      (p : PendingPacket) (rest : List PendingPacket) (q : Packet)
      → p.duplicate ≡ false
      → (decode_packet p.bytes).packet ≡ some q
      → arrivals (datagrams (p ∷ rest)) ≡ arrival q ∷ arrivals (datagrams rest)
  unfolding arrivals datagrams
  arrivals_accepted p rest q once accepted = rw (once, accepted, arrivals) refl

module _ (sensor : SensorType) (extra : ℕ) (time : ℕ → ℕ) (config : FaultInjectionConfig)
    (source listener : Ipv4Endpoint) (received_at : ℕ → ℕ) where
  abbrev intact : ℕ → ReceivedPacket
  intact n = arrival source listener received_at (generated_packet sensor extra n (time n))

  abbrev sent : ℕ → ℕ → List PendingPacket
  sent n count = map (λ p. p.0) (survivors config (generated sensor extra time n count))

  generated-decoded :
      (n : ℕ)
      → n < 2 ^ 64
      → time n < 2 ^ 64
      → extra ≤ 65451
      → (decode_packet
          (pending_packet config n (bytes_of (generate sensor extra n (time n)))).bytes).packet
        ≡ (if matches_interval config.corrupt_every n
            then none
            else some (generated_packet sensor extra n (time n)))
  unfolding pending_packet
  generated-decoded n small timed fits =
      let q = generated_packet sensor extra n (time n) in
      let (bytes, (made, decoded, sample)) =
        generate_delivered sensor extra n (time n) small timed fits in
      let written = generate-layout sensor extra n (time n) small timed fits in
      let same : bytes ≡ layout q.header q.payload = ap bytes_of (sym made ∙ written) in
      rw written (
        pending_packet-decoded config n (layout q.header q.payload) q
          (packet-IsBytes sensor extra n (time n) small timed fits)
          (subst (λ b. (decode_packet b).packet ≡ some q) same (ap (λ r. r.packet) decoded)))

  sent_once :
      (n : ℕ) (bytes : List ℕ)
      → config.duplicate_every ≡ none
      → (pending_packet config n bytes).duplicate ≡ false
  unfolding pending_packet matches_interval
  sent_once n bytes single = ap (λ o. matches_interval o n) single

  sent-arrivals :
      (n count : ℕ)
      → n + count ≤ 2 ^ 64
      → ((k : ℕ) → time k < 2 ^ 64)
      → extra ≤ 65451
      → config.duplicate_every ≡ none
      → arrivals source listener received_at (datagrams (sent n count))
        ≡ map intact (unharmed config n count)
  unfolding survivors arrivals datagrams generated unharmed
  sent-arrivals n zero small timed fits single = refl
  sent-arrivals n (suc count) small timed fits single =
      let later = sent-arrivals (suc n) count (omega arith) timed fits single in
      elim (Bool-cases (matches_interval config.drop_every n)) [
        | inl dropped ↦ rw dropped later
        | inr carried ↦
            let decoded = generated-decoded n (omega arith) (timed n) fits in
            let p = pending_packet config n (bytes_of (generate sensor extra n (time n))) in
            let once = sent_once n (bytes_of (generate sensor extra n (time n))) single in
            elim (Bool-cases (matches_interval config.corrupt_every n)) [
              | inl corrupted ↦
                  let refused : (decode_packet p.bytes).packet ≡ none =
                    decoded
                    ∙ ap (λ b. if b then none else some (generated_packet sensor extra n (time n)))
                        corrupted in
                  rw (carried, corrupted)
                    (arrivals_refused source listener received_at p (sent (suc n) count) once
                        refused
                      ∙ later)
              | inr whole ↦
                  let accepted : (decode_packet p.bytes).packet
                      ≡ some (generated_packet sensor extra n (time n)) =
                    decoded
                    ∙ ap (λ b. if b then none else some (generated_packet sensor extra n (time n)))
                        whole in
                  rw (carried, whole)
                    (arrivals_accepted source listener received_at p (sent (suc n) count)
                        (generated_packet sensor extra n (time n)) once accepted
                      ∙ ap (◌∷◌ (intact n)) later)
            ]
      ]

  intact-source : (n m : ℕ) → identify_sensor_source (intact n) ≡ identify_sensor_source (intact m)
  unfolding identify_sensor_source
  intact-source n m =
      ap
        (λ type. record {
          remote_endpoint = source;
          listener_endpoint = listener;
          message_type = type;
        })
        (message_type_same sensor extra n m)

  unharmed-GoesUp :
      (first m n count : ℕ)
      → m < n
      → n + count ≤ 2 ^ 64
      → n + count ≤ m + 2 ^ 63
      → GoesUp (identify_sensor_source (intact first)) m (map intact (unharmed config n count))
  unfolding unharmed GoesUp
  unharmed-GoesUp first m n zero up small near = tt
  unharmed-GoesUp first m n (suc count) up small near = elim (Bool-cases (is_harmed config n)) [
    | inl harmed ↦
        rw harmed (unharmed-GoesUp first m (suc n) count (omega arith) (omega arith) (omega arith))
    | inr fine ↦ rw fine (
      intact-source n first,
      up,
      omega arith,
      omega arith,
      unharmed-GoesUp first n (suc n) count (omega arith) (omega arith) (omega arith),
    )
  ]

  intact-last : (n : ℕ) (numbers : List ℕ) → last_number n (map intact numbers) ≡ last_of n numbers
  unfolding last_number last_of
  intact-last n [] = refl
  intact-last n (m ∷ rest) = intact-last m rest

  numbers_of :
      (numbers : List ℕ) → map (λ p. p.packet.header.sequence_number) (map intact numbers) ≡ numbers
  numbers_of [] = refl
  numbers_of (n ∷ rest) = ap (◌∷◌ n) (numbers_of rest)

  length-intact : (numbers : List ℕ) → length (map intact numbers) ≡ length numbers
  length-intact [] = refl
  length-intact (n ∷ rest) = ap suc (length-intact rest)

  unharmed_up :
      (n count first : ℕ) (rest : List ℕ)
      → n + count ≤ 2 ^ 64
      → count ≤ 2 ^ 63
      → unharmed config n count ≡ first ∷ rest
      → GoesUp (identify_sensor_source (intact first)) first (map intact rest)
  unfolding unharmed
  unharmed_up n zero first rest small near e = cc
  unharmed_up n (suc count) first rest small near e = elim (Bool-cases (is_harmed config n)) [
    | inl harmed ↦
        unharmed_up (suc n) count first rest (omega arith) (omega arith) (ground (arith, harmed, e))
    | inr fine ↦
        let head : n ≡ first = ground (arith, fine, e) in
        let tail : unharmed config (suc n) count ≡ rest = ground (arith, fine, e) in
        subst (λ k. GoesUp (identify_sensor_source (intact first)) k (map intact rest)) head
          (subst (λ numbers. GoesUp (identify_sensor_source (intact first)) n (map intact numbers))
            tail (unharmed-GoesUp first n (suc n) count (omega arith) (omega arith) (omega arith)))
  ]

  -- Where the simulator repeats and reorders no packet, and the numbers and times are of 64 bits and
  -- fewer than half the range in use, a network that delivers every datagram in order makes the
  -- receiver accept exactly the packets that were neither dropped nor corrupted. A new tracker that
  -- is given these, at least one of them, counts none as duplicate, reordered or untracked, and the
  -- samples that it infers missing are the numbers from the first to the last one accepted that were
  -- not accepted.
  pub stream_accounted :
      (capacity : ℕ) (t : SensorStreamTracker) (n count first : ℕ) (rest : List ℕ)
      → make_tracker capacity ≡ ok t
      → config.reorder_every ≡ none
      → config.duplicate_every ≡ none
      → n + count ≤ 2 ^ 64
      → count ≤ 2 ^ 63
      → ((k : ℕ) → time k < 2 ^ 64)
      → extra ≤ 65451
      → unharmed config n count ≡ first ∷ rest
      → let arrived =
          arrivals source listener received_at
            (datagrams (inject (make_injector config) (generated sensor extra time n count))) in
        let m = (observe_each t arrived).metrics in
        (map (λ p. p.packet.header.sequence_number) arrived ≡ unharmed config n count)
        × (m.duplicate_observations ≡ 0)
        × (m.reordered_observations ≡ 0)
        × (m.untracked_observations ≡ 0)
        × (m.missing_samples_inferred + length arrived ≡ last_of first rest + 1 - first)
  stream_accounted capacity t n count first rest made ordered single small near timed fits
        some_left =
      let arrived =
        ap (arrivals source listener received_at) (
          ap datagrams (
            inject-overtaken config (generated sensor extra time n count)
            ∙ overtaken-unmarked config (generated sensor extra time n count) ordered))
        ∙ sent-arrivals n count small timed fits single in
      let a =
        observe_each_complete capacity t (intact first) (map intact rest) made
          (unharmed_up n count first rest small near some_left) in
      subst
        (λ l.
          (map (λ p. p.packet.header.sequence_number) l ≡ unharmed config n count)
          × ((observe_each t l).metrics.duplicate_observations ≡ 0)
          × ((observe_each t l).metrics.reordered_observations ≡ 0)
          × ((observe_each t l).metrics.untracked_observations ≡ 0)
          × ((observe_each t l).metrics.missing_samples_inferred + length l
              ≡ last_of first rest + 1 - first))
        (sym (arrived ∙ ap (λ numbers. map intact numbers) some_left))
        (
          numbers_of (first ∷ rest) ∙ sym some_left,
          a.1,
          a.2,
          a.3,
          a.4 ∙ ap (λ k. k + 1 - first) (intact-last first rest),
        )
