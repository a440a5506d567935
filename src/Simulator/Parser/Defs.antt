-- ===== src/Simulator/Parser/Defs.antt =====
-- sensor_simulator.cpp: `parse_simulator_config`. std::from_chars for a double is a parameter.
use Prim.Native.String.{String}
use driveflow_runtime.Prelude.{
  ℕ, ◌^◌, Bool, true, false, not, ◌&&◌, ◌||◌, Option, none, some, List, [], ◌∷◌, ◌++◌, ltb, ◌==◌,
  if◌then◌else◌,
}
use driveflow_runtime.Prelude.Int.{pos}
use driveflow_runtime.Prelude.Parsing.{parse_unsigned}
use driveflow_runtime.Prelude.Parsed.{
  text, Parsed, parsed, refused, ◌>>=◌, ◌>>◌, refuse_if, required,
}
use driveflow_runtime.Net.{Text, text_eq, contains}
use driveflow_runtime.Protocol.Sensor.{max_camera_extra_data_size}
use driveflow_runtime.Simulator.Config.{
  SensorType, imu, gnss, camera_meta, other, FaultInjectionConfig, SimulatorConfig,
  maximum_fault_delay, is_some_zero, is_camera, is_bad_rate,
}

pub record ParseSimulatorConfigResult : Type 0 where
  pub config : Option SimulatorConfig
  pub error : Text

abbrev pub to_result : Parsed SimulatorConfig → ParseSimulatorConfigResult
to_result (Parsed.parsed config) = record { config = some config; error = [] }
to_result (Parsed.refused message) = record { config = none; error = message }

-- The bit patterns of 200.0, 10.0 and 30.0.
unfoldable pub default_rate_hz : SensorType → ℕ
default_rate_hz imu = 0x4069000000000000
default_rate_hz gnss = 0x4024000000000000
default_rate_hz camera_meta = 0x403e000000000000
default_rate_hz (other n) = 0x403e000000000000

-- The variables of the loop over the options.
pub record ParserState : Type 0 where
  pub config : SimulatorConfig
  pub has_sensor : Bool
  pub has_explicit_rate : Bool
  pub delay_every : Option ℕ
  pub delay_ms : Option ℕ
  pub seen_options : List Text

abbrev pub no_faults : FaultInjectionConfig
no_faults = record {
  drop_every = none;
  duplicate_every = none;
  reorder_every = none;
  delay = none;
  corrupt_every = none;
}

unfoldable pub initial_state : ParserState
initial_state = record {
  config = record {
    sensor_type = imu;
    destination = record { address = text "127.0.0.1"; port = 9000 };
    rate_hz = 0;
    packet_count = none;
    camera_extra_data_bytes = 0;
    faults = no_faults;
  };
  has_sensor = false;
  has_explicit_rate = false;
  delay_every = none;
  delay_ms = none;
  seen_options = [];
}

-- The options that the chain of comparisons tells apart.
pub data OptionName : Type 0 where
  sensor_option destination_option port_option rate_option count_option : OptionName
  camera_extra_option drop_option duplicate_option reorder_option : OptionName
  delay_every_option delay_ms_option corrupt_option unknown_option : OptionName

unfoldable pub option_name : Text → OptionName
option_name option =
    if text_eq option (text "--sensor")
    then sensor_option
    else if text_eq option (text "--destination")
    then destination_option
    else if text_eq option (text "--port")
    then port_option
    else if text_eq option (text "--rate-hz")
    then rate_option
    else if text_eq option (text "--count")
    then count_option
    else if text_eq option (text "--camera-extra-bytes")
    then camera_extra_option
    else if text_eq option (text "--drop-every")
    then drop_option
    else if text_eq option (text "--duplicate-every")
    then duplicate_option
    else if text_eq option (text "--reorder-every")
    then reorder_option
    else if text_eq option (text "--delay-every")
    then delay_every_option
    else if text_eq option (text "--delay-ms")
    then delay_ms_option
    else if text_eq option (text "--corrupt-every")
    then corrupt_option
    else unknown_option

unfoldable pub parse_sensor : Text → Parsed SensorType
parse_sensor value =
    if text_eq value (text "imu")
    then parsed imu
    else if text_eq value (text "gnss")
    then parsed gnss
    else if text_eq value (text "camera")
    then parsed camera_meta
    else refused (text "sensor must be imu, gnss, or camera")

-- A number of 64 bits that is not zero.
unfoldable pub parse_interval : Text → String → Parsed ℕ
parse_interval value message = required (parse_unsigned (2 ^ 64) value) message >>= λ interval.
    refuse_if (interval == 0) message >> parsed interval

unfoldable pub parse_delay_ms : Text → Parsed ℕ
parse_delay_ms value =
    required (parse_unsigned (2 ^ 64) value) "delay-ms must be an integer between 1 and 60000"
    >>= λ duration_ms.
        refuse_if (duration_ms == 0 || ltb maximum_fault_delay duration_ms)
          "delay-ms must be an integer between 1 and 60000"
        >> parsed duration_ms

abbrev pub with_faults : ParserState → FaultInjectionConfig → ParserState
with_faults st faults = record st { config = record st.config { faults = faults } }

module _ (parse_double : Text → Option ℕ) (is_ipv4_address : Text → Bool) where
  unfoldable pub apply_option : ParserState → Text → Text → OptionName → Parsed ParserState
  unfolding parse_sensor parse_interval parse_delay_ms
  apply_option st option value sensor_option = parse_sensor value >>= λ sensor.
      parsed (record st { config = record st.config { sensor_type = sensor }; has_sensor = true })
  apply_option st option value destination_option = parsed (record st {
    config = record st.config { destination = record st.config.destination { address = value } };
  })
  apply_option st option value port_option =
      required (parse_unsigned (2 ^ 16) value) "port must be an integer between 1 and 65535"
      >>= λ number. parsed (record st {
        config = record st.config { destination = record st.config.destination { port = number } };
      })
  apply_option st option value rate_option =
      required (parse_double value) "rate-hz must be a number" >>= λ rate.
      parsed (record st { config = record st.config { rate_hz = rate }; has_explicit_rate = true })
  apply_option st option value count_option =
      required (parse_unsigned (2 ^ 64) value) "count must be a positive integer" >>= λ number.
      parsed (record st { config = record st.config { packet_count = some number } })
  apply_option st option value camera_extra_option =
      required (parse_unsigned (2 ^ 64) value) "camera-extra-bytes must be a non-negative integer"
      >>= λ size.
          parsed (record st { config = record st.config { camera_extra_data_bytes = size } })
  apply_option st option value drop_option =
      parse_interval value "drop-every must be a positive integer" >>= λ interval.
      parsed (with_faults st (record st.config.faults { drop_every = some interval }))
  apply_option st option value duplicate_option =
      parse_interval value "duplicate-every must be a positive integer" >>= λ interval.
      parsed (with_faults st (record st.config.faults { duplicate_every = some interval }))
  apply_option st option value reorder_option =
      parse_interval value "reorder-every must be a positive integer" >>= λ interval.
      parsed (with_faults st (record st.config.faults { reorder_every = some interval }))
  apply_option st option value delay_every_option =
      parse_interval value "delay-every must be a positive integer" >>= λ interval.
      parsed (record st { delay_every = some interval })
  apply_option st option value delay_ms_option =
      parse_delay_ms value >>= λ duration_ms. parsed (record st { delay_ms = some duration_ms })
  apply_option st option value corrupt_option =
      parse_interval value "corrupt-every must be a positive integer" >>= λ interval.
      parsed (with_faults st (record st.config.faults { corrupt_every = some interval }))
  apply_option st option value unknown_option = refused (text "unknown option: " ++ option)

  -- The loop over pairs of an option and its value.
  unfoldable pub parse_options : List Text → ParserState → Parsed ParserState
  unfolding apply_option
  parse_options [] st = parsed st
  parse_options (option ∷ []) st = refused (text "every option requires a value")
  parse_options (option ∷ value ∷ rest) st =
      if contains option st.seen_options
      then refused (text "option specified more than once: " ++ option)
      else (apply_option (record st { seen_options = option ∷ st.seen_options }) option value
            (option_name option)
          >>= λ st'. parse_options rest st')

  -- `delay_every` and `delay_ms`, of which there are both or none.
  unfoldable pub add_delay : Option ℕ → Option ℕ → SimulatorConfig → Parsed SimulatorConfig
  add_delay none none config = parsed config
  add_delay (some interval) (some duration_ms) config = parsed (record config {
    faults = record config.faults {
      delay = some (record { every = interval; duration = pos duration_ms });
    };
  })
  add_delay none (some duration_ms) config =
      refused (text "--delay-every and --delay-ms must be specified together")
  add_delay (some interval) none config =
      refused (text "--delay-every and --delay-ms must be specified together")

  -- The checks of what the loop gives.
  unfoldable pub check_config : ParserState → SimulatorConfig → Parsed SimulatorConfig
  unfolding add_delay
  check_config st config = do
    refuse_if (not st.has_sensor) "--sensor is required"
    refuse_if (not (is_ipv4_address config.destination.address))
        "destination must be an IPv4 address"
    refuse_if (config.destination.port == 0) "port must be an integer between 1 and 65535"
    refuse_if (is_bad_rate config.rate_hz) "rate-hz must be greater than 0 and no more than 1000000"
    refuse_if (is_some_zero config.packet_count) "count must be a positive integer"
    refuse_if (ltb max_camera_extra_data_size config.camera_extra_data_bytes)
        "camera-extra-bytes exceeds the protocol payload limit"
    refuse_if (not (is_camera config.sensor_type) && not (config.camera_extra_data_bytes == 0))
        "camera-extra-bytes is only valid for the camera sensor"
    add_delay st.delay_every st.delay_ms config

  -- What follows the loop.
  unfoldable pub complete_config : ParserState → Parsed SimulatorConfig
  unfolding check_config default_rate_hz
  complete_config st = check_config st (
      if st.has_explicit_rate
      then st.config
      else record st.config { rate_hz = default_rate_hz st.config.sensor_type })

  unfoldable pub parse_simulator_config : List Text → ParseSimulatorConfigResult
  unfolding parse_options complete_config
  parse_simulator_config arguments =
      to_result (parse_options arguments initial_state >>= λ st. complete_config st)
