-- ===== src/Simulator/Tests/Arguments.antt =====
-- Runs of the simulator's option parser.
use driveflow_runtime.Prelude.{
  ℕ, ◌^◌, ◌≡◌, refl, Bool, true, Option, none, some, List, [], ◌∷◌, ◌++◌, ◌&&◌, ltb, if◌then◌else◌,
}
use driveflow_runtime.Prelude.Result.{ok}
use driveflow_runtime.Prelude.Int.{pos}
use driveflow_runtime.Prelude.Parsed.{text}
use driveflow_runtime.Prelude.Parsing.{parse_unsigned, is_number, decimal, parse_unsigned-decimal}
use driveflow_runtime.Net.{Text, contains}
use driveflow_runtime.Simulator.Config.{SimulatorConfig, camera_meta, validate_runtime_config}
use driveflow_runtime.Simulator.Parser.{
  parse_simulator_config, no_faults, initial_state, option_name,
}
use driveflow_runtime.Simulator.Parser.Valid.{parse_simulator_config-valid}
use driveflow_runtime.Simulator.Parser.Options.{fits_count}

abbrev pub no_double : Text → Option ℕ
no_double value = none

abbrev pub any_address : Text → Bool
any_address address = true

abbrev pub arguments : List Text
arguments =
    text "--sensor"
    ∷ text "camera"
    ∷ text "--count"
    ∷ text "120"
    ∷ text "--drop-every"
    ∷ text "7"
    ∷ text "--delay-every"
    ∷ text "3"
    ∷ text "--delay-ms"
    ∷ text "60000"
    ∷ []

abbrev pub expected : SimulatorConfig
expected = record {
  sensor_type = camera_meta;
  destination = record { address = text "127.0.0.1"; port = 9000 };
  rate_hz = 0x403e000000000000;
  packet_count = some 120;
  camera_extra_data_bytes = 0;
  faults = record no_faults {
    drop_every = some 7;
    delay = some (record { every = 3; duration = pos 60000 });
  };
}

pub accepted : (parse_simulator_config no_double any_address arguments).config ≡ some expected
unfolding parse_simulator_config text contains initial_state option_name parse_unsigned
accepted = refl

parse_simulator_config-valid_example :
    (validate_runtime_config any_address expected ≡ ok tt) × (fits_count (some 120) ≡ true)
parse_simulator_config-valid_example =
    parse_simulator_config-valid no_double any_address arguments expected accepted

twice :
    (parse_simulator_config no_double any_address
      (arguments ++ (text "--count" ∷ text "1" ∷ []))).error
    ≡ text "option specified more than once: --count"
unfolding parse_simulator_config text contains initial_state option_name parse_unsigned
twice = refl

-- 2 ^ 64 does not fit.
too_large :
    (parse_simulator_config no_double any_address
      (text "--count" ∷ text "18446744073709551616" ∷ [])).error
    ≡ text "count must be a positive integer"
unfolding parse_simulator_config text contains initial_state option_name parse_unsigned
too_large = refl

parse_unsigned-decimal_example : parse_unsigned (2 ^ 16) (text "9000") ≡ (
    if is_number (text "9000") && ltb (decimal (text "9000")) (2 ^ 16)
    then some (decimal (text "9000"))
    else none)
parse_unsigned-decimal_example = parse_unsigned-decimal (2 ^ 16) (text "9000")
