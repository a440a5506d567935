-- ===== src/Protocol/Sensor/Defs.antt =====
-- sensor_payload.cpp: the encoders and the decoders.
use driveflow_runtime.Prelude.{
  ℕ, ◌+◌, ◌%◌, ◌^◌, Bool, false, not, ◌&&◌, ◌||◌, Option, none, some, List, ltb, leb, ◌==◌,
  if◌then◌else◌, length, drop, replicate,
}
use Prim.Native.String.{String}
use driveflow_runtime.Prelude.Result.{Result, ok, throws, invalid_argument, length_error}
use driveflow_runtime.Protocol.Wire.{write_big_endian, read_big_endian}
use driveflow_runtime.Protocol.Packet.{MessageType, imu, gnss, camera_meta, other, copy_into}
mod Values
unfoldable pub use Values.*

-- `require_valid`, and the bytes where it does not throw.
abbrev pub require_valid : SensorPayloadError → List ℕ → Result (List ℕ)
require_valid no_error bytes = ok bytes
require_valid unknown_message_type bytes =
    throws (invalid_argument (to_string unknown_message_type))
require_valid size_mismatch bytes = throws (invalid_argument (to_string size_mismatch))
require_valid non_finite_number bytes = throws (invalid_argument (to_string non_finite_number))
require_valid value_out_of_range bytes = throws (invalid_argument (to_string value_out_of_range))

unfoldable pub write_imu : ImuSample → List ℕ
write_imu sample =
    let bytes = replicate imu_payload_size 0 in
    let bytes = write_big_endian 4 bytes 0 sample.linear_acceleration_mps2.x in
    let bytes = write_big_endian 4 bytes 4 sample.linear_acceleration_mps2.y in
    let bytes = write_big_endian 4 bytes 8 sample.linear_acceleration_mps2.z in
    let bytes = write_big_endian 4 bytes 12 sample.angular_velocity_rps.x in
    let bytes = write_big_endian 4 bytes 16 sample.angular_velocity_rps.y in
    write_big_endian 4 bytes 20 sample.angular_velocity_rps.z

unfoldable pub encode_imu : ImuSample → Result (List ℕ)
encode_imu sample = require_valid (validate_imu sample) (write_imu sample)

unfoldable pub write_gnss : GnssFix → List ℕ
write_gnss fix =
    let bytes = replicate gnss_payload_size 0 in
    let bytes = write_big_endian 8 bytes 0 fix.latitude_deg in
    let bytes = write_big_endian 8 bytes 8 fix.longitude_deg in
    let bytes = write_big_endian 8 bytes 16 fix.altitude_m in
    let bytes = write_big_endian 4 bytes 24 fix.horizontal_accuracy_m in
    write_big_endian 4 bytes 28 fix.vertical_accuracy_m

unfoldable pub encode_gnss : GnssFix → Result (List ℕ)
encode_gnss fix = require_valid (validate_gnss fix) (write_gnss fix)

unfoldable pub write_camera : CameraMeta → List ℕ
write_camera metadata =
    let bytes = replicate (camera_meta_fixed_payload_size + length metadata.extra_data) 0 in
    let bytes = write_big_endian 8 bytes 0 metadata.frame_id in
    let bytes = write_big_endian 4 bytes 8 metadata.width in
    let bytes = write_big_endian 4 bytes 12 metadata.height in
    let bytes = write_big_endian 4 bytes 16 metadata.exposure_time_us in
    let bytes = write_big_endian 4 bytes 20 (length metadata.extra_data % 2 ^ 32) in
    copy_into bytes camera_meta_fixed_payload_size metadata.extra_data

unfoldable pub encode_camera : CameraMeta → Result (List ℕ)
encode_camera metadata =
    if ltb max_camera_extra_data_size (length metadata.extra_data)
    then throws (length_error "camera extra data exceeds the DriveFlow payload limit")
    else require_valid (validate_camera metadata) (write_camera metadata)

abbrev pub failure : SensorPayloadError → DecodeSensorPayloadResult
failure error = record { payload = none; error = error }

abbrev pub success : SensorPayload → DecodeSensorPayloadResult
success payload = record { payload = some payload; error = no_error }

-- `error == kNone ? success(...) : failure(error)`
abbrev pub checked : SensorPayloadError → SensorPayload → DecodeSensorPayloadResult
checked no_error payload = success payload
checked unknown_message_type payload = failure unknown_message_type
checked size_mismatch payload = failure size_mismatch
checked non_finite_number payload = failure non_finite_number
checked value_out_of_range payload = failure value_out_of_range

unfoldable pub read_imu : List ℕ → ImuSample
read_imu bytes = record {
  linear_acceleration_mps2 = record {
    x = read_big_endian 4 bytes 0;
    y = read_big_endian 4 bytes 4;
    z = read_big_endian 4 bytes 8;
  };
  angular_velocity_rps = record {
    x = read_big_endian 4 bytes 12;
    y = read_big_endian 4 bytes 16;
    z = read_big_endian 4 bytes 20;
  };
}

unfoldable pub decode_imu : List ℕ → DecodeSensorPayloadResult
decode_imu bytes =
    if not (length bytes == imu_payload_size)
    then failure size_mismatch
    else checked (validate_imu (read_imu bytes)) (imu_sample (read_imu bytes))

unfoldable pub read_gnss : List ℕ → GnssFix
read_gnss bytes = record {
  latitude_deg = read_big_endian 8 bytes 0;
  longitude_deg = read_big_endian 8 bytes 8;
  altitude_m = read_big_endian 8 bytes 16;
  horizontal_accuracy_m = read_big_endian 4 bytes 24;
  vertical_accuracy_m = read_big_endian 4 bytes 28;
}

unfoldable pub decode_gnss : List ℕ → DecodeSensorPayloadResult
decode_gnss bytes =
    if not (length bytes == gnss_payload_size)
    then failure size_mismatch
    else checked (validate_gnss (read_gnss bytes)) (gnss_fix (read_gnss bytes))

unfoldable pub read_camera : List ℕ → CameraMeta
read_camera bytes = record {
  frame_id = read_big_endian 8 bytes 0;
  width = read_big_endian 4 bytes 8;
  height = read_big_endian 4 bytes 12;
  exposure_time_us = read_big_endian 4 bytes 16;
  extra_data = drop camera_meta_fixed_payload_size bytes;
}

unfoldable pub decode_camera : List ℕ → DecodeSensorPayloadResult
decode_camera bytes =
    let extra_size = read_big_endian 4 bytes 20 in
    if ltb (length bytes) camera_meta_fixed_payload_size
    then failure size_mismatch
    else if ltb max_camera_extra_data_size extra_size
    then failure value_out_of_range
    else if not (length bytes == camera_meta_fixed_payload_size + extra_size)
    then failure size_mismatch
    else checked (validate_camera (read_camera bytes)) (camera (read_camera bytes))

unfoldable pub message_type : SensorPayload → MessageType
message_type (imu_sample sample) = imu
message_type (gnss_fix fix) = gnss
message_type (camera metadata) = camera_meta

unfoldable pub encode_sensor_payload : SensorPayload → Result (List ℕ)
encode_sensor_payload (imu_sample sample) = encode_imu sample
encode_sensor_payload (gnss_fix fix) = encode_gnss fix
encode_sensor_payload (camera metadata) = encode_camera metadata

unfoldable pub decode_sensor_payload : MessageType → List ℕ → DecodeSensorPayloadResult
decode_sensor_payload imu bytes = decode_imu bytes
decode_sensor_payload gnss bytes = decode_gnss bytes
decode_sensor_payload camera_meta bytes = decode_camera bytes
decode_sensor_payload (other n) bytes = failure unknown_message_type
