-- ===== src/Runtime/Samples/Counts.antt =====
-- sensor_sample_processor.cpp: the counters agree, and only valid samples reach the handler.
use driveflow_runtime.Prelude.{◌+◌, ◌%◌, ◌^◌, ◌≡◌, Option, none, some, arith}
use driveflow_runtime.Prelude.Result.{Exception}
use driveflow_runtime.Protocol.Wire.{IsBytes}
use driveflow_runtime.Protocol.Sensor.{
  SensorPayload, SensorPayloadError, no_error, imu_sample, gnss_fix, camera, message_type,
  decode_sensor_payload,
}
use driveflow_runtime.Protocol.Sensor.Codec.{validate, decode_sensor_payload_sound}
use driveflow_runtime.Runtime.Received.{ReceivedPacket}
use driveflow_runtime.Runtime.Samples.Defs.{
  SensorSample, SensorSampleProcessorMetrics, process, process_decoded, count_type, make_sample,
}

-- The sums hold up to a multiple of 2 ^ 64, at which the counters wrap.
pub record IsValid (m : SensorSampleProcessorMetrics) : Type 0 where
  pub examined : m.packets_examined ≡ (m.samples_decoded + m.payloads_rejected) % 2 ^ 64
  pub decoded :
      m.samples_decoded ≡ (m.imu_samples + m.gnss_samples + m.camera_meta_samples) % 2 ^ 64

count_type-IsValid :
    (payload : SensorPayload) (m : SensorSampleProcessorMetrics)
    → m.packets_examined ≡ (m.samples_decoded + m.payloads_rejected) % 2 ^ 64
    → m.samples_decoded ≡ (m.imu_samples + m.gnss_samples + m.camera_meta_samples + 1) % 2 ^ 64
    → IsValid (count_type (message_type payload) m)
unfolding count_type message_type
count_type-IsValid (imu_sample s) m e d = record { examined = e; decoded = omega (arith, d) }
count_type-IsValid (gnss_fix f) m e d = record { examined = e; decoded = omega (arith, d) }
count_type-IsValid (camera c) m e d = record { examined = e; decoded = omega (arith, d) }

process_decoded-IsValid :
    (handler : SensorSample → Option Exception) (m : SensorSampleProcessorMetrics)
    (p : ReceivedPacket) (payload : Option SensorPayload) (error : SensorPayloadError)
    → m.packets_examined ≡ (m.samples_decoded + m.payloads_rejected + 1) % 2 ^ 64
    → m.samples_decoded ≡ (m.imu_samples + m.gnss_samples + m.camera_meta_samples) % 2 ^ 64
    → IsValid (process_decoded handler m p (record { payload = payload; error = error })).metrics
unfolding process_decoded
process_decoded-IsValid handler m p none error e d = record {
  examined = omega (arith, e);
  decoded = d;
}
process_decoded-IsValid handler m p (some payload) error e d =
    count_type-IsValid payload _ (omega (arith, e)) (omega (arith, d))

-- From counters that agree, each call of `process`, whatever the handler does, keeps the promise of the header: the packets
-- examined are the samples decoded and the payloads rejected, and the samples decoded are the sum
-- of the counts by type (up to 2 ^ 64).
pub process-IsValid :
    (handler : SensorSample → Option Exception) (m : SensorSampleProcessorMetrics)
    (p : ReceivedPacket)
    → IsValid m
    → IsValid (process handler m p).metrics
unfolding process
process-IsValid handler m p v =
    process_decoded-IsValid handler _ p
      (decode_sensor_payload p.packet.header.message_type p.packet.payload).payload
      (decode_sensor_payload p.packet.header.message_type p.packet.payload).error
      (omega (arith, v.examined)) v.decoded

handled-payload :
    (handler : SensorSample → Option Exception) (m : SensorSampleProcessorMetrics)
    (p : ReceivedPacket) (payload : Option SensorPayload) (error : SensorPayloadError)
    (sample : SensorSample)
    → (process_decoded handler m p (record { payload = payload; error = error })).handled
      ≡ some sample
    → payload ≡ some sample.payload
unfolding process_decoded make_sample
handled-payload handler m p none error sample e = absurd (ground (arith, e))
handled-payload handler m p (some payload) error sample e = ground (arith, e)

-- A sample of a packet whose payload is bytes that reaches the handler is valid, and it is of the type that the packet says.
pub process-valid_sample :
    (handler : SensorSample → Option Exception) (m : SensorSampleProcessorMetrics)
    (p : ReceivedPacket) (sample : SensorSample)
    → IsBytes p.packet.payload
    → (process handler m p).handled ≡ some sample
    → (validate sample.payload ≡ no_error)
      × (message_type sample.payload ≡ p.packet.header.message_type)
unfolding process
process-valid_sample handler m p sample b e =
    let (type, valid, bytes) =
      decode_sensor_payload_sound p.packet.header.message_type p.packet.payload sample.payload b (
        handled-payload handler _ p
          (decode_sensor_payload p.packet.header.message_type p.packet.payload).payload
          (decode_sensor_payload p.packet.header.message_type p.packet.payload).error sample e) in
    (valid, type)
