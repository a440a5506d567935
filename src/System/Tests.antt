-- ===== src/System/Tests.antt =====
-- A stream with faults, from the simulator to the tracker.
use driveflow_runtime.Prelude.{ℕ, ◌+◌, ◌≡◌, refl, none, some, List, [], ◌∷◌, map, arith, length}
use driveflow_runtime.Prelude.Result.{ok}
use driveflow_runtime.Net.{Ipv4Endpoint}
use driveflow_runtime.Runtime.Received.{ReceivedPacket}
use driveflow_runtime.Runtime.Tracker.{SensorStreamTracker, no_metrics, make_tracker}
use driveflow_runtime.Runtime.Tracker.Stream.{observe_each}
use driveflow_runtime.Simulator.Config.{gnss, FaultInjectionConfig}
use driveflow_runtime.Simulator.Faults.{make_injector, matches_interval}
use driveflow_runtime.Simulator.Faults.Order.{inject}
use driveflow_runtime.System.Stream.{
  arrivals, datagrams, generated, unharmed, last_of, stream_accounted,
}

abbrev lossy : FaultInjectionConfig
lossy = record {
  drop_every = some 4;
  duplicate_every = none;
  reorder_every = none;
  delay = none;
  corrupt_every = some 3;
}

abbrev here : Ipv4Endpoint
here = record { address = 0x31 ∷ []; port = 9000 }

abbrev clock : ℕ → ℕ
clock n = 1000

abbrev tracker : SensorStreamTracker
tracker = record { max_sources = 2; sources = []; metrics = no_metrics }

made : make_tracker 2 ≡ ok tracker
unfolding make_tracker
made = refl

left : unharmed lossy 1 8 ≡ 1 ∷ 2 ∷ 5 ∷ 7 ∷ []
unfolding unharmed matches_interval
left = refl

abbrev arrived : List ReceivedPacket
arrived =
    arrivals here here clock (datagrams (inject (make_injector lossy) (generated gnss 0 clock 1 8)))

stream_accounted_example :
    (map (λ (p : ReceivedPacket). p.packet.header.sequence_number) arrived ≡ unharmed lossy 1 8)
    × ((observe_each tracker arrived).metrics.duplicate_observations ≡ 0)
    × ((observe_each tracker arrived).metrics.reordered_observations ≡ 0)
    × ((observe_each tracker arrived).metrics.untracked_observations ≡ 0)
    × ((observe_each tracker arrived).metrics.missing_samples_inferred + length arrived ≡ 7)
unfolding last_of
stream_accounted_example =
    stream_accounted gnss 0 clock lossy here here clock 2 tracker 1 8 1 (2 ∷ 5 ∷ 7 ∷ []) made refl
      refl (omega arith) (omega arith) (λ k. omega arith) (omega arith) left
