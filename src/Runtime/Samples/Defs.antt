-- ===== src/Runtime/Samples/Defs.antt =====
-- sensor_sample_processor.cpp: the counters and `process`. The sample handler is the caller's: it
-- is a function that says whether it throws on a sample.
use driveflow_runtime.Prelude.{ℕ, Option, none, some}
use driveflow_runtime.Prelude.Result.{Result, ok, throws, Exception}
use driveflow_runtime.Net.{Ipv4Endpoint}
use driveflow_runtime.Protocol.Packet.{MessageType, imu, gnss, camera_meta, other}
use driveflow_runtime.Protocol.Sensor.{
  SensorPayload, SensorPayloadError, no_error, DecodeSensorPayloadResult, message_type,
  decode_sensor_payload,
}
use driveflow_runtime.Runtime.Received.{ReceivedPacket, increment}

pub record SensorSample : Type 0 where
  pub sequence_number : ℕ
  pub source_timestamp_ns : ℕ
  pub receive_timestamp_ns : ℕ
  pub source : Ipv4Endpoint
  pub listener : Ipv4Endpoint
  pub payload : SensorPayload

-- The atomic counters of `SensorSampleProcessor`, which are also its `metrics()`.
pub record SensorSampleProcessorMetrics : Type 0 where
  pub packets_examined : ℕ
  pub samples_decoded : ℕ
  pub payloads_rejected : ℕ
  pub imu_samples : ℕ
  pub gnss_samples : ℕ
  pub camera_meta_samples : ℕ

abbrev pub no_metrics : SensorSampleProcessorMetrics
no_metrics = record {
  packets_examined = 0;
  samples_decoded = 0;
  payloads_rejected = 0;
  imu_samples = 0;
  gnss_samples = 0;
  camera_meta_samples = 0;
}

unfoldable pub make_sample : ReceivedPacket → SensorPayload → SensorSample
make_sample p payload = record {
  sequence_number = p.packet.header.sequence_number;
  source_timestamp_ns = p.packet.header.source_timestamp_ns;
  receive_timestamp_ns = p.receive_timestamp_ns;
  source = p.source;
  listener = p.listener;
  payload = payload;
}

-- The `switch` of `process`.
unfoldable pub count_type :
    MessageType → SensorSampleProcessorMetrics → SensorSampleProcessorMetrics
count_type imu m = record m { imu_samples = increment m.imu_samples }
count_type gnss m = record m { gnss_samples = increment m.gnss_samples }
count_type camera_meta m = record m { camera_meta_samples = increment m.camera_meta_samples }
count_type (other n) m = m

-- The counters after the call, the sample handed to the handler, and the outcome. `handler` is
-- `some e` on a sample that it throws `e` on.
pub record Processed : Type 0 where
  pub metrics : SensorSampleProcessorMetrics
  pub handled : Option SensorSample
  pub outcome : Result SensorPayloadError

abbrev pub handler_outcome : Option Exception → Result SensorPayloadError
handler_outcome none = ok no_error
handler_outcome (some e) = throws e

unfoldable pub process_decoded :
    (SensorSample → Option Exception)
    → SensorSampleProcessorMetrics
    → ReceivedPacket
    → DecodeSensorPayloadResult
    → Processed
unfolding count_type make_sample
process_decoded handler m p decoded = elim decoded.payload [
  | none ↦ record {
    metrics = record m { payloads_rejected = increment m.payloads_rejected };
    handled = none;
    outcome = ok decoded.error;
  }
  | some payload ↦ record {
    metrics =
        count_type (message_type payload)
          (record m { samples_decoded = increment m.samples_decoded });
    handled = some (make_sample p payload);
    outcome = handler_outcome (handler (make_sample p payload));
  }
]

unfoldable pub process :
    (SensorSample → Option Exception) → SensorSampleProcessorMetrics → ReceivedPacket → Processed
unfolding process_decoded
process handler m p =
    process_decoded handler (record m { packets_examined = increment m.packets_examined }) p
      (decode_sensor_payload p.packet.header.message_type p.packet.payload)
