-- ===== src/Simulator/Config.antt =====
-- sensor_simulator.hpp: the configuration; sensor_simulator.cpp: its validation. A rate is the bit
-- pattern of its double; `is_ipv4_address` is what inet_pton says, and a parameter.
use Prim.Native.String.{String, ◌++◌ as ◌<>◌}
use driveflow_runtime.Prelude.{
  ℕ, ◌^◌, Bool, true, false, not, ◌&&◌, ◌||◌, Option, none, some, ltb, ◌==◌, if◌then◌else◌,
}
use driveflow_runtime.Prelude.Int.{ℤ, pos, leb_ℤ}
use driveflow_runtime.Prelude.Result.{Result, ok, throws, invalid_argument, ◌>>◌}
use driveflow_runtime.Net.{Text, Ipv4Endpoint}
use driveflow_runtime.Protocol.Sensor.{is_finite_double, is_less, max_camera_extra_data_size}

-- An `enum class`: `other` is a value that no enumerator names.
pub data SensorType : Type 0 where
  imu gnss camera_meta : SensorType
  other : ℕ → SensorType

pub record PeriodicDelay : Type 0 where
  pub every : ℕ
  pub duration : ℤ

pub record FaultInjectionConfig : Type 0 where
  pub drop_every : Option ℕ
  pub duplicate_every : Option ℕ
  pub reorder_every : Option ℕ
  pub delay : Option PeriodicDelay
  pub corrupt_every : Option ℕ

pub record SimulatorConfig : Type 0 where
  pub sensor_type : SensorType
  pub destination : Ipv4Endpoint
  pub rate_hz : ℕ
  pub packet_count : Option ℕ
  pub camera_extra_data_bytes : ℕ
  pub faults : FaultInjectionConfig

-- The bit pattern of 1000000.0.
abbrev pub maximum_rate_hz : ℕ
maximum_rate_hz = 0x412e848000000000

-- In milliseconds.
abbrev pub maximum_fault_delay : ℕ
maximum_fault_delay = 60000

abbrev pub is_some_zero : Option ℕ → Bool
is_some_zero none = false
is_some_zero (some n) = n == 0

abbrev pub is_known_sensor : SensorType → Bool
is_known_sensor imu = true
is_known_sensor gnss = true
is_known_sensor camera_meta = true
is_known_sensor (other n) = false

abbrev pub is_camera : SensorType → Bool
is_camera imu = false
is_camera gnss = false
is_camera camera_meta = true
is_camera (other n) = false

-- `!std::isfinite(rate) || rate <= 0.0 || rate > kMaximumRateHz`
abbrev pub is_bad_rate : ℕ → Bool
is_bad_rate rate =
    not (is_finite_double rate)
    || not (is_less (2 ^ 63) 0 rate)
    || is_less (2 ^ 63) maximum_rate_hz rate

abbrev pub check : Bool → String → Result (Unit {0})
check bad message = if bad then throws (invalid_argument message) else ok tt

unfoldable pub validate_interval : Option ℕ → String → Result (Unit {0})
validate_interval interval name = check (is_some_zero interval) (name <> " must be positive")

unfoldable pub validate_delay : Option PeriodicDelay → Result (Unit {0})
validate_delay none = ok tt
validate_delay (some delay) = do
  check (delay.every == 0) "delay interval must be positive"
  check (leb_ℤ delay.duration (pos 0) || not (leb_ℤ delay.duration (pos maximum_fault_delay)))
      "delay must be between 1 and 60000 milliseconds"

unfoldable pub validate_runtime_config : (Text → Bool) → SimulatorConfig → Result (Unit {0})
unfolding validate_interval validate_delay
validate_runtime_config is_ipv4_address config = do
  check (not (is_known_sensor config.sensor_type)) "unknown sensor type"
  check (not (is_ipv4_address config.destination.address)) "destination must be an IPv4 address"
  check (config.destination.port == 0) "destination port must be between 1 and 65535"
  check (is_bad_rate config.rate_hz) "rate must be greater than 0 and no more than 1000000 Hz"
  check (is_some_zero config.packet_count) "packet count must be positive"
  check (ltb max_camera_extra_data_size config.camera_extra_data_bytes)
      "camera extra data exceeds the protocol payload limit"
  check (not (is_camera config.sensor_type) && not (config.camera_extra_data_bytes == 0))
      "camera extra data is only valid for CameraMeta"
  validate_interval config.faults.drop_every "drop interval"
  validate_interval config.faults.duplicate_every "duplicate interval"
  validate_interval config.faults.reorder_every "reorder interval"
  validate_interval config.faults.corrupt_every "corrupt interval"
  validate_delay config.faults.delay
