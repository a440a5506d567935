-- ===== src/Protocol/Sensor/Codec.antt =====
-- sensor_payload.cpp: `encode_sensor_payload` and `decode_sensor_payload` are inverse to each
-- other on the valid payloads.
use driveflow_runtime.Prelude.{
  ℕ, ◌+◌, ◌≤◌, ◌≡◌, refl, subst, ap, ◌∙◌, some, List, arith, length, ltb, if◌then◌else◌,
}
use driveflow_runtime.Prelude.Result.{Result, ok}
use driveflow_runtime.Protocol.Wire.{IsBytes, read_big_endian}
use driveflow_runtime.Protocol.Packet.{MessageType, imu, gnss, camera_meta, other}
use driveflow_runtime.Protocol.Sensor.Defs.{
  CameraMeta, SensorPayload, imu_sample, gnss_fix, camera, SensorPayloadError, no_error,
  validate_imu, validate_gnss, validate_camera, encode_imu, encode_gnss, encode_camera,
  max_camera_extra_data_size, success, read_imu, read_gnss, read_camera, decode_imu, decode_gnss,
  decode_camera, message_type, encode_sensor_payload, decode_sensor_payload,
}
use driveflow_runtime.Protocol.Sensor.Layout.{
  imu_layout, gnss_layout, camera_layout, write_imu-layout, write_gnss-layout, write_camera-layout,
  IsImu, IsGnss, IsCamera, read_imu-layout, read_gnss-layout, read_camera-layout,
  read_extra_size-layout, layout-read_imu, layout-read_gnss, layout-read_camera,
}

-- The fields fit their widths.
unfoldable pub IsPayload : SensorPayload → Type 0
IsPayload (imu_sample s) = IsImu s
IsPayload (gnss_fix f) = IsGnss f
IsPayload (camera m) = IsCamera m

-- What the `validate` of the payload's type says.
unfoldable pub validate : SensorPayload → SensorPayloadError
validate (imu_sample s) = validate_imu s
validate (gnss_fix f) = validate_gnss f
validate (camera m) = validate_camera m

abbrev pub payload_layout : SensorPayload → List ℕ
payload_layout (imu_sample s) = imu_layout s
payload_layout (gnss_fix f) = gnss_layout f
payload_layout (camera m) = camera_layout m

pub valid_extra : (m : CameraMeta) → validate_camera m ≡ no_error → length m.extra_data ≤ 65451
unfolding validate_camera
valid_extra m e = ground arith

within :
    (n : ℕ) (a b : Result (List ℕ))
    → n ≤ 65451
    → (if ltb max_camera_extra_data_size n then a else b) ≡ b
within n a b le = ground arith

decode_camera-accept :
    (bs : List ℕ) (m : CameraMeta)
    → length bs ≡ 24 + read_big_endian 4 bs 20
    → read_big_endian 4 bs 20 ≤ 65451
    → read_camera bs ≡ m
    → validate_camera m ≡ no_error
    → decode_camera bs ≡ success (camera m)
unfolding decode_camera
decode_camera-accept bs m len le same e =
    ground (arith, len, le, ap validate_camera same ∙ e, ap camera same)

-- The encoder accepts every payload that is valid, and writes the fields in their order, each
-- most significant byte first.
pub encode_sensor_payload-layout :
    (p : SensorPayload) → validate p ≡ no_error → encode_sensor_payload p ≡ ok (payload_layout p)
unfolding validate encode_sensor_payload encode_imu encode_gnss encode_camera
encode_sensor_payload-layout (imu_sample s) e = rw (e, write_imu-layout s)
encode_sensor_payload-layout (gnss_fix f) e = rw (e, write_gnss-layout f)
encode_sensor_payload-layout (camera m) e =
    within (length m.extra_data) _ _ (valid_extra m e)
    ∙ rw (e, write_camera-layout m (omega (arith, valid_extra m e)))

-- Decoding the bytes of a valid payload whose fields fit their widths, under its own message type,
-- gives the payload and no error.
pub decode-encode_sensor_payload :
    (p : SensorPayload)
    → IsPayload p
    → validate p ≡ no_error
    → decode_sensor_payload (message_type p) (payload_layout p) ≡ success p
unfolding IsPayload validate decode_sensor_payload message_type decode_imu decode_gnss decode_camera
decode-encode_sensor_payload (imu_sample s) h e = rw (read_imu-layout s h, e)
decode-encode_sensor_payload (gnss_fix f) h e = rw (read_gnss-layout f h, e)
decode-encode_sensor_payload (camera m) h e =
    decode_camera-accept (camera_layout m) m (omega (arith, size))
      (omega (arith, size, valid_extra m e)) (read_camera-layout m h) e
  where
    size : read_big_endian 4 (camera_layout m) 20 ≡ length m.extra_data
    size = read_extra_size-layout m h (omega (arith, valid_extra m e))

pub imu_sound :
    (bs : List ℕ) (p : SensorPayload)
    → IsBytes bs
    → (decode_imu bs).payload ≡ some p
    → (imu_sample (read_imu bs) ≡ p) × (length bs ≡ 24) × (validate_imu (read_imu bs) ≡ no_error)
unfolding decode_imu
imu_sound bs p b e = ground arith

pub gnss_sound :
    (bs : List ℕ) (p : SensorPayload)
    → (decode_gnss bs).payload ≡ some p
    → (gnss_fix (read_gnss bs) ≡ p) × (length bs ≡ 32) × (validate_gnss (read_gnss bs) ≡ no_error)
unfolding decode_gnss
gnss_sound bs p e = ground arith

pub camera_sound :
    (bs : List ℕ) (p : SensorPayload)
    → (decode_camera bs).payload ≡ some p
    → (camera (read_camera bs) ≡ p)
      × (length bs ≡ 24 + read_big_endian 4 bs 20)
      × (validate_camera (read_camera bs) ≡ no_error)
unfolding decode_camera
camera_sound bs p e = ground arith

abbrev Sound : MessageType → List ℕ → SensorPayload → Type 0
Sound t bs p = (message_type p ≡ t) × (validate p ≡ no_error) × (encode_sensor_payload p ≡ ok bs)

Sound-of :
    (t : MessageType) (bs : List ℕ) (q p : SensorPayload)
    → q ≡ p
    → message_type q ≡ t
    → validate q ≡ no_error
    → payload_layout q ≡ bs
    → Sound t bs p
Sound-of t bs q p same type valid bytes =
    subst (λ (x : SensorPayload). Sound t bs x) same
      (type, valid, encode_sensor_payload-layout q valid ∙ ap ok bytes)

-- What the decoder accepts is sound: a payload decoded from bytes is of the message type asked
-- for, it is valid, and encoding it gives the very bytes.
pub decode_sensor_payload_sound :
    (t : MessageType) (bs : List ℕ) (p : SensorPayload)
    → IsBytes bs
    → (decode_sensor_payload t bs).payload ≡ some p
    → (message_type p ≡ t) × (validate p ≡ no_error) × (encode_sensor_payload p ≡ ok bs)
unfolding decode_sensor_payload message_type validate
decode_sensor_payload_sound imu bs p b e =
    let (same, len, valid) = imu_sound bs p b e in
    Sound-of imu bs (imu_sample (read_imu bs)) p same refl valid (layout-read_imu bs b len)
decode_sensor_payload_sound gnss bs p b e =
    let (same, len, valid) = gnss_sound bs p e in
    Sound-of gnss bs (gnss_fix (read_gnss bs)) p same refl valid (layout-read_gnss bs b len)
decode_sensor_payload_sound camera_meta bs p b e =
    let (same, len, valid) = camera_sound bs p e in
    Sound-of camera_meta bs (camera (read_camera bs)) p same refl valid
      (layout-read_camera bs b len)
decode_sensor_payload_sound (other n) bs p b e = absurd (ground (arith, e))
