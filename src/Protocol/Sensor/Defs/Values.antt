-- ===== src/Protocol/Sensor/Defs/Values.antt =====
-- include/driveflow/protocol/sensor_payload.hpp, and the validation of sensor_payload.cpp: a `float`
-- or `double` is its IEEE 754 bit pattern, which is what the code writes and reads; the code asserts
-- that both types are IEEE 754.
use driveflow_runtime.Prelude.{
  ℕ, ◌%◌, ◌^◌, Bool, false, not, ◌&&◌, ◌||◌, Option, List, ltb, leb, ◌==◌, if◌then◌else◌, length,
}
use Prim.Native.String.{String}

abbrev pub imu_payload_size : ℕ
imu_payload_size = 24

abbrev pub gnss_payload_size : ℕ
gnss_payload_size = 32

abbrev pub camera_meta_fixed_payload_size : ℕ
camera_meta_fixed_payload_size = 24

-- kMaxPayloadSize - kCameraMetaFixedPayloadSize
abbrev pub max_camera_extra_data_size : ℕ
max_camera_extra_data_size = 65451

pub record Vector3f : Type 0 where
  pub x : ℕ
  pub y : ℕ
  pub z : ℕ

pub record ImuSample : Type 0 where
  pub linear_acceleration_mps2 : Vector3f
  pub angular_velocity_rps : Vector3f

pub record GnssFix : Type 0 where
  pub latitude_deg : ℕ
  pub longitude_deg : ℕ
  pub altitude_m : ℕ
  pub horizontal_accuracy_m : ℕ
  pub vertical_accuracy_m : ℕ

pub record CameraMeta : Type 0 where
  pub frame_id : ℕ
  pub width : ℕ
  pub height : ℕ
  pub exposure_time_us : ℕ
  pub extra_data : List ℕ

-- std::variant<ImuSample, GnssFix, CameraMeta>
pub data SensorPayload : Type 0 where
  imu_sample : ImuSample → SensorPayload
  gnss_fix : GnssFix → SensorPayload
  camera : CameraMeta → SensorPayload

pub data SensorPayloadError : Type 0 where
  no_error unknown_message_type size_mismatch non_finite_number value_out_of_range :
      SensorPayloadError

pub record DecodeSensorPayloadResult : Type 0 where
  pub payload : Option SensorPayload
  pub error : SensorPayloadError

abbrev pub to_string : SensorPayloadError → String
to_string no_error = "none"
to_string unknown_message_type = "unknown sensor message type"
to_string size_mismatch = "sensor payload size mismatch"
to_string non_finite_number = "sensor payload contains a non-finite number"
to_string value_out_of_range = "sensor payload value is out of range"

-- std::isfinite: the exponent is not all ones.
abbrev pub is_finite_float : ℕ → Bool
is_finite_float bits = ltb (bits % 2 ^ 31) 0x7f800000

abbrev pub is_finite_double : ℕ → Bool
is_finite_double bits = ltb (bits % 2 ^ 63) 0x7ff0000000000000

-- `<` of two finite numbers whose sign bit weighs `sign`; -0 and 0 are equal.
abbrev pub is_less : ℕ → ℕ → ℕ → Bool
is_less sign a b =
    if leb sign a
    then (if leb sign b then ltb (b % sign) (a % sign) else not (a % sign == 0 && b % sign == 0))
    else if leb sign b
    then false
    else ltb a b

-- The bit patterns of -90.0, 90.0, -180.0, 180.0, and of 0.0F.
abbrev pub minus_90 : ℕ
minus_90 = 0xc056800000000000

abbrev pub plus_90 : ℕ
plus_90 = 0x4056800000000000

abbrev pub minus_180 : ℕ
minus_180 = 0xc066800000000000

abbrev pub plus_180 : ℕ
plus_180 = 0x4066800000000000

unfoldable pub validate_imu : ImuSample → SensorPayloadError
validate_imu sample =
    let acceleration = sample.linear_acceleration_mps2 in
    let angular_velocity = sample.angular_velocity_rps in
    if not (is_finite_float acceleration.x)
      || not (is_finite_float acceleration.y)
      || not (is_finite_float acceleration.z)
      || not (is_finite_float angular_velocity.x)
      || not (is_finite_float angular_velocity.y)
      || not (is_finite_float angular_velocity.z)
    then non_finite_number
    else no_error

unfoldable pub validate_gnss : GnssFix → SensorPayloadError
validate_gnss fix =
    if not (is_finite_double fix.latitude_deg)
      || not (is_finite_double fix.longitude_deg)
      || not (is_finite_double fix.altitude_m)
      || not (is_finite_float fix.horizontal_accuracy_m)
      || not (is_finite_float fix.vertical_accuracy_m)
    then non_finite_number
    else if is_less (2 ^ 63) fix.latitude_deg minus_90
        || is_less (2 ^ 63) plus_90 fix.latitude_deg
        || is_less (2 ^ 63) fix.longitude_deg minus_180
        || is_less (2 ^ 63) plus_180 fix.longitude_deg
        || is_less (2 ^ 31) fix.horizontal_accuracy_m 0
        || is_less (2 ^ 31) fix.vertical_accuracy_m 0
    then value_out_of_range
    else no_error

unfoldable pub validate_camera : CameraMeta → SensorPayloadError
validate_camera metadata =
    if metadata.width == 0
      || metadata.height == 0
      || ltb max_camera_extra_data_size (length metadata.extra_data)
    then value_out_of_range
    else no_error
