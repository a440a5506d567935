-- ===== src/Simulator/Tests.antt =====
-- Runs of the sensor simulator in a world whose state is its clock.
pub mod Arguments
use mathlib.Core.List.{Perm}
use driveflow_runtime.Prelude.{
  ℕ, ◌+◌, ◌%◌, ◌^◌, ◌≡◌, refl, Bool, true, false, none, some, List, [], ◌∷◌, arith, map, max,
  length, if◌then◌else◌,
}
use driveflow_runtime.Prelude.Int.{pos}
use driveflow_runtime.Prelude.Result.{ok}
use driveflow_runtime.Net.{Text}
use driveflow_runtime.Protocol.Packet.{decode_packet, no_error}
use driveflow_runtime.Protocol.Tests.{datagram, sample_packet, datagram-IsBytes, datagram-accepted}
use driveflow_runtime.Protocol.Sensor.{decode_sensor_payload, success}
use driveflow_runtime.Simulator.Config.{
  FaultInjectionConfig, SimulatorConfig, gnss, camera_meta, validate_runtime_config,
}
use driveflow_runtime.Simulator.Faults.{make_injector, process, finish, pending_packet}
use driveflow_runtime.Simulator.Faults.Order.{
  inject, dropped, survivors, overtaken, inject-overtaken, inject_conserves,
}
use driveflow_runtime.Simulator.Samples.{make_sensor_sample, generate}
use driveflow_runtime.Simulator.Samples.Delivery.{
  generated_packet, generate_delivered, pending_packet-decoded,
}
use driveflow_runtime.Simulator.World.{World, IsSteady, IsQuiet, finished}
use driveflow_runtime.Simulator.Send.{SimulationSummary, wait_until_or_stop}
use driveflow_runtime.Simulator.Send.Wait.{Waited, wait_until_or_stop-Waited}
use driveflow_runtime.Simulator.Run.{run_simulator}
use driveflow_runtime.Simulator.Run.Complete.{run_simulator_complete}

abbrev pub clock : World
clock = record {
  State = ℕ;
  time = λ s. s;
  stop_requested = λ s. (false, s);
  sleep_until = λ t s. max t s;
  open_socket = λ s. (ok tt, s);
  send_to = λ bytes e s. (ok tt, s);
}

pub clock-IsSteady : IsSteady clock
clock-IsSteady = record {
  stop_time = λ s. omega arith;
  slept = λ t s. omega arith;
  sleep_time = λ t s. omega arith;
  send_time = λ bytes e s. omega arith;
}

pub clock-IsQuiet : IsQuiet clock
clock-IsQuiet = record {
  never_stopped = λ s. refl;
  opened = λ s. refl;
  delivered = λ bytes e s. refl;
}

abbrev faults : FaultInjectionConfig
faults = record {
  drop_every = some 5;
  duplicate_every = some 3;
  reorder_every = some 2;
  delay = some (record { every = 4; duration = pos 20 });
  corrupt_every = some 7;
}

abbrev config : SimulatorConfig
config = record {
  sensor_type = gnss;
  destination = record { address = []; port = 9000 };
  rate_hz = 0x4024000000000000;
  packet_count = some 8;
  camera_extra_data_bytes = 0;
  faults = faults;
}

abbrev any_address : Text → Bool
any_address address = true

abbrev pub tenth_of_second : ℕ → ℕ
tenth_of_second rate = 100000000

config_valid : validate_runtime_config any_address config ≡ ok tt
unfolding validate_runtime_config
config_valid = refl

run_simulator_complete_example :
    (summary : SimulationSummary) × ((run_simulator clock any_address tenth_of_second 9 config true
          5
        ≡ finished summary)
      × (summary.packets_generated ≡ 8)
      × ((summary.packets_sent + summary.packets_dropped) % 2 ^ 64
          ≡ (8 + summary.duplicate_packets_sent) % 2 ^ 64))
run_simulator_complete_example =
    run_simulator_complete clock clock-IsSteady clock-IsQuiet any_address tenth_of_second 9 8 config
      5 config_valid refl (omega arith) (omega arith)

wait_until_or_stop-Waited_example : Waited clock 25000000 (wait_until_or_stop clock 25000000 5)
wait_until_or_stop-Waited_example = wait_until_or_stop-Waited clock clock-IsSteady 25000000 5

abbrev numbered : List (ℕ × List ℕ)
numbered = (1, 10 ∷ []) ∷ (2, 20 ∷ []) ∷ (3, 30 ∷ []) ∷ (4, 40 ∷ []) ∷ (5, 50 ∷ []) ∷ []

inject-overtaken_example :
    inject (make_injector faults) numbered ≡ overtaken (survivors faults numbered)
inject-overtaken_example = inject-overtaken faults numbered

inject_conserves_example :
    Perm (inject (make_injector faults) numbered) (map (λ p. p.0) (survivors faults numbered))
    × (dropped (make_injector faults) numbered + length (inject (make_injector faults) numbered)
        ≡ 5)
inject_conserves_example = inject_conserves faults numbered

-- The second packet is sent after the third, and the fifth is dropped, with the fourth sent last.
numbered_sent :
    map (λ p. p.bytes) (inject (make_injector faults) numbered)
    ≡ (10 ∷ []) ∷ (30 ∷ []) ∷ (20 ∷ []) ∷ (40 ∷ []) ∷ []
unfolding inject process finish
numbered_sent = refl

generate_delivered_example :
    (bytes : List ℕ) × ((generate camera_meta 3 1 1000 ≡ ok bytes)
      × (decode_packet bytes
          ≡ record { packet = some (generated_packet camera_meta 3 1 1000); error = no_error })
      × (decode_sensor_payload
            (generated_packet camera_meta 3 1 1000).header.message_type
            (generated_packet camera_meta 3 1 1000).payload
          ≡ success (make_sensor_sample camera_meta 1 3)))
generate_delivered_example =
    generate_delivered camera_meta 3 1 1000 (omega arith) (omega arith) (omega arith)
