-- ===== src/Protocol/Tests.antt =====
-- Runs of the wire protocol at concrete packets and payloads.
use driveflow_runtime.Prelude.{
  true, false, ℕ, ◌*◌, ◌%◌, ◌^◌, ◌≡◌, refl, ap, none, some, List, [], ◌∷◌, arith, set, replicate,
}
use driveflow_runtime.Prelude.Result.{ok}
use driveflow_runtime.Protocol.Wire.{IsBytes, read-write, read_big_endian, write_big_endian}
use driveflow_runtime.Protocol.Packet.{
  Packet, DecodeResult, gnss, is_enumerator, no_error, encode_packet, decode_packet,
}
use driveflow_runtime.Protocol.Packet.Layout.{layout, sealed_header}
use driveflow_runtime.Protocol.Packet.Codec.{
  IsPacket, encode_packet-layout, decode-encode_packet, IsSound, resealed, decode_packet-IsSound,
}
use driveflow_runtime.Protocol.Sensor.{
  is_less, minus_180, minus_90, plus_90, validate_gnss, value_out_of_range, SensorPayload,
  SensorPayloadError, camera, DecodeSensorPayloadResult, success, validate_camera, message_type,
  encode_sensor_payload, decode_sensor_payload,
}
use driveflow_runtime.Protocol.Sensor.Codec.{
  IsPayload, validate, payload_layout, encode_sensor_payload-layout, decode-encode_sensor_payload,
  decode_sensor_payload_sound,
}
use driveflow_runtime.Protocol.Packet.Corruption.{decode_packet-corrupted}

abbrev zeros : List ℕ
zeros = replicate 6 0

read-write_example :
    read_big_endian 4 (write_big_endian 4 zeros 1 0x12345678) 1 ≡ 0x12345678 % 2 ^ (4 * 8)
read-write_example = read-write 4 zeros 1 0x12345678 (omega arith) (omega arith)

abbrev sample_payload : List ℕ
sample_payload = 0x31 ∷ 0x32 ∷ []

sample-IsPacket : IsPacket gnss 7 9 sample_payload
unfolding is_enumerator
sample-IsPacket = record {
  enumerator_named = refl;
  sequence = omega arith;
  timestamp = omega arith;
  bytes = omega arith;
  fits = omega arith;
}

abbrev pub datagram : List ℕ
datagram = layout (sealed_header gnss 7 9 sample_payload) sample_payload

abbrev pub sample_packet : Packet
sample_packet = record { header = sealed_header gnss 7 9 sample_payload; payload = sample_payload }

encode_packet-layout_example : encode_packet gnss 7 9 sample_payload ≡ ok datagram
encode_packet-layout_example = encode_packet-layout gnss 7 9 sample_payload sample-IsPacket

decode-encode_packet_example :
    decode_packet datagram ≡ record { packet = some sample_packet; error = no_error }
decode-encode_packet_example =
    decode-encode_packet gnss 7 9 sample_payload sample-IsPacket datagram
      (encode_packet-layout gnss 7 9 sample_payload sample-IsPacket)

pub datagram-IsBytes : IsBytes datagram
datagram-IsBytes = omega arith

pub datagram-accepted : (decode_packet datagram).packet ≡ some sample_packet
datagram-accepted =
    ap (λ (r : DecodeResult). r.packet)
      (decode-encode_packet gnss 7 9 sample_payload sample-IsPacket datagram
        (encode_packet-layout gnss 7 9 sample_payload sample-IsPacket))

decode_packet-IsSound_example :
    IsSound datagram sample_packet
    × (sample_packet.header ≡ resealed sample_packet)
    × ((decode_packet datagram).error ≡ no_error)
decode_packet-IsSound_example = decode_packet-IsSound datagram datagram-IsBytes datagram-accepted

decode_packet-corrupted_example : (decode_packet (set datagram 33 0)).packet ≡ none
decode_packet-corrupted_example =
    decode_packet-corrupted datagram 33 0 datagram-IsBytes datagram-accepted (omega arith)
      (omega arith) (λ e. omega (arith, e))

abbrev sample_camera : SensorPayload
sample_camera =
    camera (record {
      frame_id = 5;
      width = 2;
      height = 3;
      exposure_time_us = 8;
      extra_data = 1 ∷ 2 ∷ [];
    })

sample_camera-valid : validate sample_camera ≡ SensorPayloadError.no_error
unfolding validate validate_camera
sample_camera-valid = refl

sample_camera-IsPayload : IsPayload sample_camera
unfolding IsPayload
sample_camera-IsPayload = record {
  frame = omega arith;
  columns = omega arith;
  rows = omega arith;
  exposure = omega arith;
  extra = omega arith;
}

encode_sensor_payload-layout_example :
    encode_sensor_payload sample_camera ≡ ok (payload_layout sample_camera)
encode_sensor_payload-layout_example =
    encode_sensor_payload-layout sample_camera sample_camera-valid

decode-encode_sensor_payload_example :
    decode_sensor_payload (message_type sample_camera) (payload_layout sample_camera)
    ≡ success sample_camera
decode-encode_sensor_payload_example =
    decode-encode_sensor_payload sample_camera sample_camera-IsPayload sample_camera-valid

decode_sensor_payload_sound_example :
    (message_type sample_camera ≡ message_type sample_camera)
    × (validate sample_camera ≡ SensorPayloadError.no_error)
    × (encode_sensor_payload sample_camera ≡ ok (payload_layout sample_camera))
decode_sensor_payload_sound_example =
    decode_sensor_payload_sound (message_type sample_camera) (payload_layout sample_camera)
      sample_camera (omega arith)
      (ap (λ (r : DecodeSensorPayloadResult). r.payload)
        (decode-encode_sensor_payload sample_camera sample_camera-IsPayload sample_camera-valid))

-- -180.0 < -90.0, not 90.0 < -90.0, and neither of -0.0 and 0.0 below the other.
minus_180_below : is_less (2 ^ 63) minus_180 minus_90 ≡ true
minus_180_below = refl

plus_90_not_below : is_less (2 ^ 63) plus_90 minus_90 ≡ false
plus_90_not_below = refl

zeros_not_below : (is_less (2 ^ 63) (2 ^ 63) 0 ≡ false) × (is_less (2 ^ 63) 0 (2 ^ 63) ≡ false)
zeros_not_below = (refl, refl)

-- The bit pattern of 91.0.
abbrev latitude_91 : ℕ
latitude_91 = 0x4056c00000000000

validate_gnss_out_of_range :
    validate_gnss (record {
      latitude_deg = latitude_91;
      longitude_deg = 0;
      altitude_m = 0;
      horizontal_accuracy_m = 0;
      vertical_accuracy_m = 0;
    })
    ≡ value_out_of_range
unfolding validate_gnss
validate_gnss_out_of_range = refl
