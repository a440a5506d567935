-- ===== src/Programs/Exchange.antt =====
-- apps/udp_sender_main.cpp and apps/udp_receiver_main.cpp: the datagrams that the receiver accepts.
use driveflow_runtime.Prelude.{
  ℕ, ◌^◌, ◌<◌, ◌≡◌, ◌↔◌, refl, sym, ap, ap₂, ◌∙◌, inl, inr, true, some, List, [], ◌∷◌, ◌++◌, arith,
  Option-cases,
}
use driveflow_runtime.Prelude.Result.{ok}
use driveflow_runtime.Net.{Ipv4Endpoint}
use driveflow_runtime.Protocol.Wire.{IsBytes}
use driveflow_runtime.Protocol.Packet.{Packet, is_enumerator, encode_packet, decode_packet}
use driveflow_runtime.Protocol.Packet.Layout.{layout, sealed_header}
use driveflow_runtime.Protocol.Packet.Codec.{
  IsPacket, encode_packet-layout, decode-encode_packet, decode_packet-IsSound,
  decode_packet-IsRanged,
}
use driveflow_runtime.Protocol.Sensor.{
  SensorPayload, SensorPayloadError, imu_sample, gnss_fix, camera, message_type,
  decode_sensor_payload, validate_imu,
}
use driveflow_runtime.Protocol.Sensor.Codec.{
  IsPayload, validate, payload_layout, encode_sensor_payload-layout, decode-encode_sensor_payload,
  decode_sensor_payload_sound,
}
use driveflow_runtime.Protocol.Sensor.Ranges.{
  decoded-IsPayload, payload_layout-IsBytes, payload_layout-small,
}
use driveflow_runtime.Programs.Output.{Exit, literal, number, print_endpoint}
use driveflow_runtime.Programs.UdpSender.{sent_sample, make_packet}
use driveflow_runtime.Programs.UdpReceiver.{
  report_datagram, report_packet, report_payload, listening, received_line, print_sensor_payload,
}

-- The bytes that the encoders make of a valid payload, with a number and a time of 64 bits.
pub record IsEncoding (bytes : List ℕ) : Type 0 where
  pub payload : SensorPayload
  pub sequence_number : ℕ
  pub timestamp_ns : ℕ
  pub fits : IsPayload payload
  pub valid : validate payload ≡ SensorPayloadError.no_error
  pub numbered : sequence_number < 2 ^ 64
  pub timed : timestamp_ns < 2 ^ 64
  pub encoded :
      encode_packet (message_type payload) sequence_number timestamp_ns (payload_layout payload)
      ≡ ok bytes

ok-injective : {a b : List ℕ} → ok a ≡ ok b → a ≡ b
ok-injective e = cc

message_type-known : (p : SensorPayload) → is_enumerator (message_type p) ≡ true
unfolding message_type is_enumerator
message_type-known (imu_sample s) = refl
message_type-known (gnss_fix f) = refl
message_type-known (camera m) = refl

encoding-IsPacket :
    {bytes : List ℕ} (e : IsEncoding bytes)
    → IsPacket (message_type e.payload) e.sequence_number e.timestamp_ns (payload_layout e.payload)
encoding-IsPacket e = record {
  enumerator_named = message_type-known e.payload;
  sequence = e.numbered;
  timestamp = e.timed;
  bytes = payload_layout-IsBytes e.payload e.fits;
  fits = payload_layout-small e.payload e.valid;
}

-- The packet that the bytes encode.
abbrev encoded_packet : {bytes : List ℕ} → IsEncoding bytes → Packet
encoded_packet e = record {
  header =
      sealed_header (message_type e.payload) e.sequence_number e.timestamp_ns
        (payload_layout e.payload);
  payload = payload_layout e.payload;
}

module _ (actual source : Ipv4Endpoint) (bytes : List ℕ) where
  abbrev report : Exit
  report = report_datagram actual (ok (record { bytes = bytes; source = source }))

  report-encoding :
      (e : IsEncoding bytes)
      → report ≡ record {
        status = 0;
        out = listening actual ++ received_line source (encoded_packet e) e.payload;
        err = [];
      }
  unfolding report_datagram report_packet report_payload
  report-encoding e =
      rw
        (
          decode-encode_packet (message_type e.payload) e.sequence_number e.timestamp_ns
              (payload_layout e.payload) (encoding-IsPacket e) bytes e.encoded,
          decode-encode_sensor_payload e.payload e.fits e.valid,
        )
        refl

  decoded-IsEncoding :
      (q : Packet) (p : SensorPayload)
      → IsBytes bytes
      → (decode_packet bytes).packet ≡ some q
      → (decode_sensor_payload q.header.message_type q.payload).payload ≡ some p
      → IsEncoding bytes
  decoded-IsEncoding q p b packed decoded =
      let r = decode_packet-IsRanged bytes b packed in
      let (sound, resealed, clean) = decode_packet-IsSound bytes b packed in
      let (typed, valid, encoded) =
        decode_sensor_payload_sound q.header.message_type q.payload p r.bytes decoded in
      let same : payload_layout p ≡ q.payload =
        ok-injective (sym (encode_sensor_payload-layout p valid) ∙ encoded) in
      let written =
        encode_packet-layout q.header.message_type q.header.sequence_number
          q.header.source_timestamp_ns q.payload
          (record {
            enumerator_named = ap is_enumerator (sym typed) ∙ message_type-known p;
            sequence = r.sequence;
            timestamp = r.timestamp;
            bytes = r.bytes;
            fits = sound.2;
          }) in
      record {
        payload = p;
        sequence_number = q.header.sequence_number;
        timestamp_ns = q.header.source_timestamp_ns;
        fits = decoded-IsPayload q.header.message_type q.payload p r.bytes decoded;
        valid = valid;
        numbered = r.sequence;
        timed = r.timestamp;
        encoded =
            ap₂
              (λ t payload.
                encode_packet t q.header.sequence_number q.header.source_timestamp_ns payload)
              typed same
            ∙ written
            ∙ ap ok (ap (λ h. layout h q.payload) (sym resealed) ∙ sym sound.0);
      }

  report-IsEncoding : IsBytes bytes → report.status ≡ 0 → IsEncoding bytes
  unfolding report_datagram report_packet report_payload
  report-IsEncoding b accepted = elim (Option-cases (decode_packet bytes).packet) [
    | inl refused ↦ absurd (ground (arith, accepted, refused))
    | inr (q, packed) ↦
        elim (Option-cases (decode_sensor_payload q.header.message_type q.payload).payload) [
          | inl refused ↦ absurd (ground (arith, accepted, packed, refused))
          | inr (p, decoded) ↦ decoded-IsEncoding q p b packed decoded
        ]
  ]

  -- The receiver program exits with 0 for exactly the datagrams of bytes that the encoders make of a
  -- valid payload, with a sequence number and a time of 64 bits.
  pub report_datagram-encodings : IsBytes bytes → (report.status ≡ 0) ↔ IsEncoding bytes
  report_datagram-encodings b = (report-IsEncoding b, λ e. ap (λ x. x.status) (report-encoding e))

sent-IsPayload : IsPayload sent_sample
unfolding IsPayload
sent-IsPayload = omega arith

sent_valid : validate sent_sample ≡ SensorPayloadError.no_error
unfolding validate validate_imu
sent_valid = refl

-- With a time of 64 bits, the sender program makes a datagram, and the receiver program, wherever it
-- listens and the datagram comes from, exits with 0 on it, with no complaint, and prints the sender's
-- endpoint, the sequence number 1, the 24 bytes and the numbers of the sample.
pub make_packet_received :
    (now : ℕ) (actual source : Ipv4Endpoint)
    → now < 2 ^ 64
    → (bytes : List ℕ) × ((make_packet now ≡ ok bytes)
        × (report_datagram actual (ok (record { bytes = bytes; source = source })) ≡ record {
          status = 0;
          out =
              listening actual
              ++ literal "received packet from "
                ∷ print_endpoint source (
                    literal " type="
                    ∷ number 1
                    ∷ literal " sequence="
                    ∷ number 1
                    ∷ literal " payload_bytes="
                    ∷ number 24
                    ∷ (print_sensor_payload sent_sample ++ literal "\n" ∷ []));
          err = [];
        }))
unfolding make_packet message_type
make_packet_received now actual source timed =
    let payload = payload_layout sent_sample in
    let is_packet : IsPacket (message_type sent_sample) 1 now payload = record {
      enumerator_named = message_type-known sent_sample;
      sequence = omega arith;
      timestamp = timed;
      bytes = payload_layout-IsBytes sent_sample sent-IsPayload;
      fits = payload_layout-small sent_sample sent_valid;
    } in
    let written = encode_packet-layout (message_type sent_sample) 1 now payload is_packet in
    let bytes = layout (sealed_header (message_type sent_sample) 1 now payload) payload in
    (
      bytes,
      (
        rw (encode_sensor_payload-layout sent_sample sent_valid) written,
        report-encoding actual source bytes (record {
          payload = sent_sample;
          sequence_number = 1;
          timestamp_ns = now;
          fits = sent-IsPayload;
          valid = sent_valid;
          numbered = omega arith;
          timed = timed;
          encoded = written;
        }),
      ),
    )
