-- ===== src/Programs/Simulated.antt =====
-- apps/sensor_simulator_main.cpp: a command line that asks for a number of packets runs to its end.
use driveflow_runtime.Prelude.{
  ℕ, ◌+◌, ◌%◌, ◌^◌, ◌<◌, ◌≡◌, refl, Bool, true, false, Option, some, List, [], ◌++◌, arith, drop,
}
use driveflow_runtime.Net.{Text}
use driveflow_runtime.Simulator.Config.{SimulatorConfig}
use driveflow_runtime.Simulator.Parser.{parse_simulator_config}
use driveflow_runtime.Simulator.Parser.Valid.{parse_simulator_config-valid}
use driveflow_runtime.Simulator.Run.Complete.{run_simulator_complete}
use driveflow_runtime.Simulator.Send.{SimulationSummary}
use driveflow_runtime.Simulator.World.{World, IsSteady, IsQuiet, finished}
use driveflow_runtime.Programs.SensorSimulator.{
  help_requested, run_configured, conclude, simulator_main, starting, stopped_line,
}

module _ (w : World) (parse_double : Text → Option ℕ) (is_ipv4_address : Text → Bool)
    (period_of : ℕ → ℕ) (steady : IsSteady w) (quiet : IsQuiet w) where
  -- In a run in which no stop is asked for and the socket works, on a clock that never goes back and
  -- sleeps that last until their time, a command line without `--help` that the parser accepts and
  -- that asks for `n` packets makes the simulator program exit with 0 and print nothing on its error
  -- stream; the summary that it prints has `n` packets generated, and, up to 2 ^ 64, as many sent and
  -- dropped as generated and duplicated.
  pub simulator_main_complete :
      (rounds n : ℕ) (argv : List Text) (config : SimulatorConfig) (s : w.State)
      → help_requested (drop 1 argv) ≡ false
      → (parse_simulator_config parse_double is_ipv4_address (drop 1 argv)).config ≡ some config
      → config.packet_count ≡ some n
      → n < rounds
      → (summary : SimulationSummary) × ((simulator_main w parse_double is_ipv4_address period_of
              rounds true argv s
            ≡ finished
                (record { status = 0; out = starting config ++ stopped_line summary; err = [] }))
          × (summary.packets_generated ≡ n)
          × ((summary.packets_sent + summary.packets_dropped) % 2 ^ 64
              ≡ (n + summary.duplicate_packets_sent) % 2 ^ 64))
  unfolding simulator_main run_configured conclude
  simulator_main_complete rounds n argv config s unasked accepted count enough =
      let (valid, fits) =
        parse_simulator_config-valid parse_double is_ipv4_address (drop 1 argv) config accepted in
      let small : n < 2 ^ 64 = ground (arith, fits, count) in
      let (summary, (ran, generated, sends)) =
        run_simulator_complete w steady quiet is_ipv4_address period_of rounds n config s valid
          count small enough in
      (summary, (rw (unasked, accepted, ran) refl, generated, sends))
