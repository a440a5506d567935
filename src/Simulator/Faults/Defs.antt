-- ===== src/Simulator/Faults/Defs.antt =====
-- sensor_simulator.cpp: `FaultInjector`, its packets and its batches.
use driveflow_runtime.Prelude.{
  ℕ, ◌%◌, bit_xor, Bool, true, false, Option, none, some, List, [], ◌∷◌, ◌==◌, if◌then◌else◌,
}
use driveflow_runtime.Prelude.Int.{ℤ, pos}
use driveflow_runtime.Simulator.Config.{PeriodicDelay, FaultInjectionConfig}

unfoldable pub matches_interval : Option ℕ → ℕ → Bool
matches_interval none sequence_number = false
matches_interval (some interval) sequence_number = sequence_number % interval == 0

-- `delay` is a count of milliseconds.
pub record PendingPacket : Type 0 where
  pub bytes : List ℕ
  pub duplicate : Bool
  pub corrupted : Bool
  pub delay : ℤ

pub record InjectionBatch : Type 0 where
  pub packets : List PendingPacket
  pub packets_dropped : ℕ
  pub reorder_events : ℕ

pub record FaultInjector : Type 0 where
  pub config : FaultInjectionConfig
  pub held_packet : PendingPacket
  pub has_held_packet : Bool

abbrev pub no_packet : PendingPacket
no_packet = record { bytes = []; duplicate = false; corrupted = false; delay = pos 0 }

abbrev pub make_injector : FaultInjectionConfig → FaultInjector
make_injector config = record { config = config; held_packet = no_packet; has_held_packet = false }

unfoldable pub delay_for : Option PeriodicDelay → ℕ → ℤ
delay_for none sequence_number = pos 0
delay_for (some delay) sequence_number =
    if sequence_number % delay.every == 0 then delay.duration else pos 0

-- `packet.bytes.back() ^= 0x01U`, where there is a byte.
unfoldable pub flip_last : List ℕ → List ℕ
flip_last [] = []
flip_last (b ∷ []) = bit_xor b 1 ∷ []
flip_last (b ∷ c ∷ rest) = b ∷ flip_last (c ∷ rest)

-- The packet that `process` makes, with its corruption.
unfoldable pub pending_packet : FaultInjectionConfig → ℕ → List ℕ → PendingPacket
unfolding matches_interval delay_for flip_last
pending_packet config sequence_number bytes = record {
  bytes = if matches_interval config.corrupt_every sequence_number then flip_last bytes else bytes;
  duplicate = matches_interval config.duplicate_every sequence_number;
  corrupted = matches_interval config.corrupt_every sequence_number;
  delay = delay_for config.delay sequence_number;
}

unfoldable pub process : FaultInjector → ℕ → List ℕ → FaultInjector × InjectionBatch
unfolding pending_packet matches_interval
process j sequence_number bytes =
    let packet = pending_packet j.config sequence_number bytes in
    if matches_interval j.config.drop_every sequence_number
    then (j, record { packets = []; packets_dropped = 1; reorder_events = 0 })
    else if j.has_held_packet
    then (
      record j { held_packet = no_packet; has_held_packet = false },
      record { packets = packet ∷ j.held_packet ∷ []; packets_dropped = 0; reorder_events = 1 },
    )
    else if matches_interval j.config.reorder_every sequence_number
    then (
      record j { held_packet = packet; has_held_packet = true },
      record { packets = []; packets_dropped = 0; reorder_events = 0 },
    )
    else (j, record { packets = packet ∷ []; packets_dropped = 0; reorder_events = 0 })

unfoldable pub finish : FaultInjector → FaultInjector × InjectionBatch
finish j =
    if j.has_held_packet
    then (
      record j { held_packet = no_packet; has_held_packet = false },
      record { packets = j.held_packet ∷ []; packets_dropped = 0; reorder_events = 0 },
    )
    else (j, record { packets = []; packets_dropped = 0; reorder_events = 0 })
