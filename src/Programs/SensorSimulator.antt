-- ===== src/Programs/SensorSimulator.antt =====
-- apps/sensor_simulator_main.cpp, in the world of run_simulator: the flag that a signal sets is what
-- the world's stop predicate reads.
use Prim.Native.String.{String, ◌++◌ as ◌<>◌}
use driveflow_runtime.Prelude.{
  ℕ, Bool, true, false, ◌||◌, Option, none, some, List, [], ◌∷◌, ◌++◌, drop, if◌then◌else◌,
}
use driveflow_runtime.Prelude.Parsed
use driveflow_runtime.Prelude.Result.{Exception, runtime_error}
use driveflow_runtime.Net.{Text, text_eq}
use driveflow_runtime.Simulator.Config.{SensorType, imu, gnss, camera_meta, other, SimulatorConfig}
use driveflow_runtime.Simulator.Parser.{ParseSimulatorConfigResult, parse_simulator_config}
use driveflow_runtime.Simulator.Run.{run_simulator}
use driveflow_runtime.Simulator.Send.{SimulationSummary}
use driveflow_runtime.Simulator.World.{World, Outcome, finished, threw, unfinished}
use driveflow_runtime.Programs.Output.{
  Piece, literal, characters, number, double, Exit, what, print_endpoint,
}

abbrev pub simulator_usage : String
simulator_usage =
    "usage: driveflow_sensor_simulator --sensor <imu|gnss|camera> [options]\n\n" <> "options:\n"
    <> "  --destination <IPv4>           Destination address (default: 127.0.0.1)\n"
    <> "  --port <port>                  Destination port (default: 9000)\n"
    <> "  --rate-hz <frequency>          Override the sensor default rate\n"
    <> "  --count <packets>              Generated packet count (default: continuous)\n"
    <> "  --camera-extra-bytes <bytes>   Extra CameraMeta payload bytes (default: 0)\n"
    <> "  --drop-every <N>               Drop every Nth generated packet\n"
    <> "  --duplicate-every <N>          Duplicate every Nth generated packet\n"
    <> "  --reorder-every <N>            Send every Nth packet after its successor\n"
    <> "  --delay-every <N>              Delay every Nth generated packet\n"
    <> "  --delay-ms <milliseconds>      Delay duration; requires --delay-every\n"
    <> "  --corrupt-every <N>            Corrupt every Nth packet after CRC encoding\n"
    <> "  --help                         Show this help\n"

abbrev pub to_string : SensorType → String
to_string imu = "imu"
to_string gnss = "gnss"
to_string camera_meta = "camera"
to_string (other n) = "unknown"

-- The loop from the first argument on.
unfoldable pub help_requested : List Text → Bool
help_requested [] = false
help_requested (argument ∷ rest) = text_eq argument (Parsed.text "--help") || help_requested rest

abbrev pub starting : SimulatorConfig → List Piece
starting config =
    literal "starting "
    ∷ literal (to_string config.sensor_type)
    ∷ literal " simulator at "
    ∷ double config.rate_hz
    ∷ literal " Hz -> "
    ∷ print_endpoint config.destination (literal "\n" ∷ [])

abbrev pub stopped_line : SimulationSummary → List Piece
stopped_line summary =
    literal "stopped packets_generated="
    ∷ number summary.packets_generated
    ∷ literal " packets_sent="
    ∷ number summary.packets_sent
    ∷ literal " packets_dropped="
    ∷ number summary.packets_dropped
    ∷ literal " duplicate_packets_sent="
    ∷ number summary.duplicate_packets_sent
    ∷ literal " reorder_events="
    ∷ number summary.reorder_events
    ∷ literal " delayed_packets="
    ∷ number summary.delayed_packets
    ∷ literal " corrupted_packets_sent="
    ∷ number summary.corrupted_packets_sent
    ∷ literal "\n"
    ∷ []

-- The `catch` of `main`, where `printed` is what was printed before.
abbrev simulator_failed : List Piece → Exception → Exit
simulator_failed printed e = record {
  status = 2;
  out = printed;
  err = literal "simulator failed: " ∷ literal (what e) ∷ literal "\n" ∷ [];
}

-- The end of the `try`, of what `run_simulator` comes to.
unfoldable pub conclude : SimulatorConfig → Outcome SimulationSummary → Outcome Exit
conclude config (finished summary) =
    finished (record { status = 0; out = starting config ++ stopped_line summary; err = [] })
conclude config (threw e) = finished (simulator_failed (starting config) e)
conclude config unfinished = unfinished

abbrev refused : Text → Exit
refused error = record {
  status = 1;
  out = [];
  err =
      literal "configuration error: "
      ∷ characters error
      ∷ literal "\n\n"
      ∷ literal simulator_usage
      ∷ [];
}

abbrev pub shown_help : Exit
shown_help = record { status = 0; out = literal simulator_usage ∷ []; err = [] }

module _ (w : World) (parse_double : Text → Option ℕ) (is_ipv4_address : Text → Bool)
    (period_of : ℕ → ℕ) where
  -- The `try`; `installed` is whether std::signal took both handlers.
  unfoldable pub run_configured : ℕ → Bool → SimulatorConfig → w.State → Outcome Exit
  unfolding conclude
  run_configured rounds installed config s =
      if installed
      then conclude config (run_simulator w is_ipv4_address period_of rounds config true s)
      else finished (simulator_failed [] (runtime_error "failed to install stop signal handlers"))

  abbrev after_parse : ℕ → Bool → ParseSimulatorConfigResult → w.State → Outcome Exit
  after_parse rounds installed parsed s = elim parsed.config [
    | none ↦ finished (refused parsed.error)
    | some config ↦ run_configured rounds installed config s
  ]

  -- `argv`, the program's name first; `rounds` is the fuel of the loop of `run_simulator`.
  unfoldable pub simulator_main : ℕ → Bool → List Text → w.State → Outcome Exit
  unfolding run_configured help_requested
  simulator_main rounds installed argv s =
      if help_requested (drop 1 argv)
      then finished shown_help
      else after_parse rounds installed
          (parse_simulator_config parse_double is_ipv4_address (drop 1 argv)) s
