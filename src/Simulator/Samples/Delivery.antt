-- ===== src/Simulator/Samples/Delivery.antt =====
-- What the receiver makes of a packet that the simulator generates, with and without corruption.
use driveflow_runtime.Prelude.{
  ℕ, ◌++◌, zero, suc, ◌^◌, bit_xor, ◌≡◌, ◌≢◌, ◌≤◌, ◌<◌, refl, ap, inl, inr, Bool-cases, true, none,
  some, List, [], ◌∷◌, arith, length, get_or, set, All-append, if◌then◌else◌,
}
use driveflow_runtime.Prelude.Bits.{bit_xor_step, bit_xor-lt}
use driveflow_runtime.Prelude.Result.{ok}
use driveflow_runtime.Protocol.Wire.{IsBytes, IsByte, IsBytes-get_or, be_bytes, be_bytes-IsBytes}
use driveflow_runtime.Protocol.Packet.{Packet, is_enumerator, decode_packet, no_error}
use driveflow_runtime.Protocol.Packet.Layout.{header_bytes, sealed_header, layout}
use driveflow_runtime.Protocol.Packet.Codec.{
  IsPacket, header_bytes-IsBytes, decode_packet-checksum, encode_packet-layout,
  decode-encode_packet,
}
use driveflow_runtime.Protocol.Packet.Corruption.{decode_packet-corrupted}
use driveflow_runtime.Protocol.Sensor.{
  SensorPayload, SensorPayloadError, message_type, decode_sensor_payload, success, validate_imu,
  validate_gnss, validate_camera,
}
use driveflow_runtime.Protocol.Sensor.Layout.{camera_layout-IsBytes}
use driveflow_runtime.Protocol.Sensor.Codec.{
  validate, IsPayload, payload_layout, encode_sensor_payload-layout, decode-encode_sensor_payload,
}
use driveflow_runtime.Simulator.Config.{
  SensorType, FaultInjectionConfig, imu, gnss, camera_meta, other,
}
use driveflow_runtime.Simulator.Faults.{matches_interval, flip_last, pending_packet}
use driveflow_runtime.Simulator.Samples.{ramp, make_sensor_sample, generate}

length-ramp : (left index : ℕ) → length (ramp left index) ≡ left
unfolding ramp
length-ramp zero index = refl
length-ramp (suc left) index = ap suc (length-ramp left (suc index))

ramp-IsBytes : (left index : ℕ) → IsBytes (ramp left index)
unfolding ramp
ramp-IsBytes zero index = tt
ramp-IsBytes (suc left) index = (omega arith, ramp-IsBytes left (suc index))

-- What the packet encoder needs of a payload.
record IsSendable (n : ℕ) (p : SensorPayload) : Type 0 where
  valid : validate p ≡ SensorPayloadError.no_error
  fits : IsPayload p
  known : is_enumerator (message_type p) ≡ true
  bytes : IsBytes (payload_layout p)
  small : length (payload_layout p) ≤ 65475

make_sensor_sample-IsSendable :
    (sensor : SensorType) (n extra : ℕ)
    → n < 2 ^ 64
    → extra ≤ 65451
    → IsSendable n (make_sensor_sample sensor n extra)
unfolding make_sensor_sample validate validate_imu validate_gnss validate_camera IsPayload
    message_type is_enumerator
make_sensor_sample-IsSendable imu n extra hn he = record {
  valid = refl;
  fits = omega arith;
  known = refl;
  bytes = omega arith;
  small = omega arith;
}
make_sensor_sample-IsSendable gnss n extra hn he = record {
  valid = refl;
  fits = omega arith;
  known = refl;
  bytes = omega arith;
  small = omega arith;
}
make_sensor_sample-IsSendable (other k) n extra hn he = record {
  valid = refl;
  fits = omega arith;
  known = refl;
  bytes = omega arith;
  small = omega arith;
}
make_sensor_sample-IsSendable camera_meta n extra hn he = record {
  valid = ground (arith, length-ramp extra 0);
  fits = record {
    frame = hn;
    columns = omega arith;
    rows = omega arith;
    exposure = omega arith;
    extra = ramp-IsBytes extra 0;
  };
  known = refl;
  bytes =
      camera_layout-IsBytes
        (record {
          frame_id = n;
          width = 1920;
          height = 1080;
          exposure_time_us = 8000;
          extra_data = ramp extra 0;
        })
        (ramp-IsBytes extra 0);
  small = omega (arith, length-ramp extra 0);
}

-- The packet that the simulator generates.
abbrev pub generated_packet : SensorType → ℕ → ℕ → ℕ → Packet
generated_packet sensor extra n ts =
    let sample = make_sensor_sample sensor n extra in
    record {
      header = sealed_header (message_type sample) n ts (payload_layout sample);
      payload = payload_layout sample;
    }

module _ (sensor : SensorType) (extra n ts : ℕ) (hn : n < 2 ^ 64) (ht : ts < 2 ^ 64)
    (he : extra ≤ 65451) where
  abbrev sample : SensorPayload
  sample = make_sensor_sample sensor n extra

  abbrev packet : Packet
  packet = generated_packet sensor extra n ts

  sendable : IsSendable n sample
  sendable = make_sensor_sample-IsSendable sensor n extra hn he

  sample-IsPacket : IsPacket (message_type sample) n ts (payload_layout sample)
  sample-IsPacket = record {
    enumerator_named = sendable.known;
    sequence = hn;
    timestamp = ht;
    bytes = sendable.bytes;
    fits = sendable.small;
  }

  pub generate-layout : generate sensor extra n ts ≡ ok (layout packet.header packet.payload)
  unfolding generate
  generate-layout =
      rw (encode_sensor_payload-layout sample sendable.valid)
        (encode_packet-layout (message_type sample) n ts (payload_layout sample) sample-IsPacket)

  pub packet-IsBytes : IsBytes (layout packet.header packet.payload)
  packet-IsBytes =
      All-append IsByte (header_bytes packet.header)
        (be_bytes 4 packet.header.crc32 ++ packet.payload) (header_bytes-IsBytes packet.header)
        (All-append IsByte (be_bytes 4 packet.header.crc32) packet.payload
          (be_bytes-IsBytes 4 packet.header.crc32) sendable.bytes)

  -- For every sensor, a 64-bit sequence number and timestamp and extra data within the limit, the
  -- simulator generates a datagram, and the receiver decodes it to a packet with this number and
  -- time, whose payload it decodes to the sample.
  pub generate_delivered :
      (bytes : List ℕ) × ((generate sensor extra n ts ≡ ok bytes)
        × (decode_packet bytes
            ≡ record { packet = some (generated_packet sensor extra n ts); error = no_error })
        × (decode_sensor_payload
              (generated_packet sensor extra n ts).header.message_type
              (generated_packet sensor extra n ts).payload
            ≡ success (make_sensor_sample sensor n extra)))
  generate_delivered = (
    layout packet.header packet.payload,
    (
      generate-layout,
      decode-encode_packet (message_type sample) n ts (payload_layout sample) sample-IsPacket _
          (encode_packet-layout (message_type sample) n ts (payload_layout sample) sample-IsPacket),
      decode-encode_sensor_payload sample sendable.fits sendable.valid,
    ),
  )

flip_last-set :
    (b : ℕ) (bs : List ℕ)
    → flip_last (b ∷ bs) ≡ set (b ∷ bs) (length bs) (bit_xor (get_or (b ∷ bs) (length bs) 0) 1)
unfolding flip_last
flip_last-set b [] = refl
flip_last-set b (c ∷ rest) = ap (◌∷◌ b) (flip_last-set c rest)

flipped-ne : (x : ℕ) → bit_xor x 1 ≢ x
flipped-ne x e = omega (arith, bit_xor_step x 1)

flip_last-refused :
    (bs : List ℕ) (q : Packet)
    → IsBytes bs
    → (decode_packet bs).packet ≡ some q
    → (decode_packet (flip_last bs)).packet ≡ none
flip_last-refused [] q b e = absurd (omega (arith, (decode_packet-checksum [] e).0))
flip_last-refused (x ∷ bs) q b e = rw (flip_last-set x bs) (
    decode_packet-corrupted (x ∷ bs) (length bs) (bit_xor (get_or (x ∷ bs) (length bs) 0) 1) b e
      (omega arith)
      (bit_xor-lt 8 (get_or (x ∷ bs) (length bs) 0) 1 (IsBytes-get_or (x ∷ bs) (length bs) b)
        (omega arith))
      (flipped-ne (get_or (x ∷ bs) (length bs) 0)))

-- Of a datagram of bytes that the receiver accepts, the fault injector makes a packet whose bytes
-- the receiver refuses exactly where the injector marks it corrupted; otherwise it decodes them to
-- the same packet.
pub pending_packet-decoded :
    (config : FaultInjectionConfig) (n : ℕ) (bs : List ℕ) (q : Packet)
    → IsBytes bs
    → (decode_packet bs).packet ≡ some q
    → (decode_packet (pending_packet config n bs).bytes).packet
      ≡ (if (pending_packet config n bs).corrupted then none else some q)
unfolding pending_packet
pending_packet-decoded config n bs q b e =
    elim (Bool-cases (matches_interval config.corrupt_every n)) [
      | inl bad ↦ rw bad (flip_last-refused bs q b e)
      | inr good ↦ rw good e
    ]
