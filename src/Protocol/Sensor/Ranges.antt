-- ===== src/Protocol/Sensor/Ranges.antt =====
-- sensor_payload.cpp: the fields of a decoded payload fit their widths, and the sizes of what the
-- encoders write.
use driveflow_runtime.Prelude.{ℕ, ◌≤◌, ◌≡◌, subst, some, List, arith, length, All-drop}
use driveflow_runtime.Protocol.Wire.{IsBytes, IsByte, read-lt}
use driveflow_runtime.Protocol.Packet.{MessageType, imu, gnss, camera_meta, other}
use driveflow_runtime.Protocol.Sensor.Defs.{
  SensorPayload, imu_sample, gnss_fix, camera, no_error, read_imu, read_gnss, read_camera,
  decode_sensor_payload,
}
use driveflow_runtime.Protocol.Sensor.Layout.{
  imu_layout-IsBytes, gnss_layout-IsBytes, camera_layout-IsBytes, IsImu, IsGnss, IsCamera,
}
use driveflow_runtime.Protocol.Sensor.Codec.{
  IsPayload, validate, payload_layout, imu_sound, gnss_sound, camera_sound, valid_extra,
}

read_imu-IsImu : (bs : List ℕ) → IsBytes bs → length bs ≡ 24 → IsImu (read_imu bs)
unfolding read_imu
read_imu-IsImu bs b size = record {
  ax = read-lt 4 bs 0 b (omega (arith, size));
  ay = read-lt 4 bs 4 b (omega (arith, size));
  az = read-lt 4 bs 8 b (omega (arith, size));
  wx = read-lt 4 bs 12 b (omega (arith, size));
  wy = read-lt 4 bs 16 b (omega (arith, size));
  wz = read-lt 4 bs 20 b (omega (arith, size));
}

read_gnss-IsGnss : (bs : List ℕ) → IsBytes bs → length bs ≡ 32 → IsGnss (read_gnss bs)
unfolding read_gnss
read_gnss-IsGnss bs b size = record {
  latitude = read-lt 8 bs 0 b (omega (arith, size));
  longitude = read-lt 8 bs 8 b (omega (arith, size));
  altitude = read-lt 8 bs 16 b (omega (arith, size));
  horizontal = read-lt 4 bs 24 b (omega (arith, size));
  vertical = read-lt 4 bs 28 b (omega (arith, size));
}

read_camera-IsCamera : (bs : List ℕ) → IsBytes bs → 24 ≤ length bs → IsCamera (read_camera bs)
unfolding read_camera
read_camera-IsCamera bs b size = record {
  frame = read-lt 8 bs 0 b (omega (arith, size));
  columns = read-lt 4 bs 8 b (omega (arith, size));
  rows = read-lt 4 bs 12 b (omega (arith, size));
  exposure = read-lt 4 bs 16 b (omega (arith, size));
  extra = All-drop IsByte 24 bs b;
}

-- The fields of a payload decoded from bytes fit their widths.
pub decoded-IsPayload :
    (t : MessageType) (bs : List ℕ) (p : SensorPayload)
    → IsBytes bs
    → (decode_sensor_payload t bs).payload ≡ some p
    → IsPayload p
unfolding decode_sensor_payload IsPayload
decoded-IsPayload imu bs p b e =
    let (same, size, valid) = imu_sound bs p b e in subst IsPayload same (read_imu-IsImu bs b size)
decoded-IsPayload gnss bs p b e =
    let (same, size, valid) = gnss_sound bs p e in subst IsPayload same (read_gnss-IsGnss bs b size)
decoded-IsPayload camera_meta bs p b e =
    let (same, size, valid) = camera_sound bs p e in
    subst IsPayload same (read_camera-IsCamera bs b (omega (arith, size)))
decoded-IsPayload (other n) bs p b e = absurd (ground (arith, e))

-- The bytes of a payload are bytes.
pub payload_layout-IsBytes : (p : SensorPayload) → IsPayload p → IsBytes (payload_layout p)
unfolding IsPayload
payload_layout-IsBytes (imu_sample s) h = imu_layout-IsBytes s
payload_layout-IsBytes (gnss_fix f) h = gnss_layout-IsBytes f
payload_layout-IsBytes (camera m) h = camera_layout-IsBytes m h.extra

-- A valid payload is within the limit of a packet.
pub payload_layout-small :
    (p : SensorPayload) → validate p ≡ no_error → length (payload_layout p) ≤ 65475
unfolding validate
payload_layout-small (imu_sample s) e = omega arith
payload_layout-small (gnss_fix f) e = omega arith
payload_layout-small (camera m) e = omega (arith, valid_extra m e)
