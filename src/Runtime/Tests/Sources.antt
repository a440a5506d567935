-- ===== src/Runtime/Tests/Sources.antt =====
-- Runs of the health monitor's records, the sample processor and the receiver.
use driveflow_runtime.Prelude.{
  ℕ, ◌≡◌, ◌≢◌, ◌↔◌, refl, true, Option, none, some, List, [], ◌∷◌, arith, length, min, zero, suc,
}
use driveflow_runtime.Prelude.Result.{Result, ok}
use driveflow_runtime.Net.{ReceivedDatagram}
use driveflow_runtime.Runtime.Receiver.{EpollReceiver, EpollWait, ready, poll}
use driveflow_runtime.Runtime.Receiver.Poll.{SoundResult, poll-SoundResult}
use driveflow_runtime.Prelude.Int.{pos}
use driveflow_runtime.Protocol.Packet.{gnss, camera_meta}
use driveflow_runtime.Protocol.Sensor.{
  SensorPayload, SensorPayloadError, camera, message_type, validate_camera, decode_sensor_payload,
}
use driveflow_runtime.Protocol.Sensor.Codec.{
  validate, IsPayload, payload_layout, decode-encode_sensor_payload,
}
use driveflow_runtime.Runtime.Received.{ReceivedPacket}
use driveflow_runtime.Runtime.Tracker.{SequenceObservation, gap, in_order}
use driveflow_runtime.Runtime.Health.{
  SourceHealthMonitorConfig, SourceHealthState, healthy, new_state, record_packet, current_rate_hz,
  evaluate_status,
}
use driveflow_runtime.Runtime.Health.Ring.{recorded, window_rate, current_rate_hz-recorded}
use driveflow_runtime.Runtime.Health.Source.{IsValid}
use driveflow_runtime.Runtime.Health.Recovery.{record_all, IsRecovered, record_all-healthy}
use driveflow_runtime.Runtime.Health.Status.{record_packet-not_healthy}
use driveflow_runtime.Runtime.Samples.{no_metrics, make_sample, process, process_decoded}
use driveflow_runtime.Runtime.Samples.Counts.{process-valid_sample}
use driveflow_runtime.Runtime.Tests.Streams.{received, here}

abbrev times : List ℕ
times = 3000 ∷ 1000 ∷ []

current_rate_hz-recorded_example :
    current_rate_hz (recorded here times) ≡ window_rate (min (length times) 64) 3000 1000
current_rate_hz-recorded_example = current_rate_hz-recorded here times (omega arith) (omega arith)

abbrev config : SourceHealthMonitorConfig
config = record {
  max_sources = 4;
  healthy_after_packets = 1;
  degraded_after = pos 50;
  offline_after = pos 100;
  recovery_after = pos 10;
}

abbrev seen : SourceHealthState
seen = record (new_state here) { packets_received = 1; last_receive_timestamp_ns = 100 }

abbrev gap_seen : SequenceObservation
gap_seen = record { status = gap; sequence_number = 7; missing_samples = 1 }

record_packet-not_healthy_example :
    evaluate_status config (record_packet seen (received 1 7 gnss []) gap_seen) 1001 ≢ healthy
record_packet-not_healthy_example =
    record_packet-not_healthy config seen (received 1 7 gnss []) gap_seen 1001 (omega arith) refl

-- A source with an issue at 100, and a packet after it.
abbrev ill : SourceHealthState
ill = record (new_state here) {
  first_receive_timestamp_ns = 100;
  last_receive_timestamp_ns = 100;
  packets_received = 1;
  issue_seen = true;
  last_issue_timestamp_ns = 100;
}

ill-IsValid : IsValid ill
unfolding new_state
ill-IsValid = record {
  ordered = omega arith;
  latency = omega arith;
  recent = omega arith;
  packets = omega arith;
  issue = λ e. absurd (ground (arith, e));
}

abbrev next_packets : List (ReceivedPacket × SequenceObservation)
next_packets =
    (received 1 8 gnss [], record { status = in_order; sequence_number = 8; missing_samples = 0 })
    ∷ []

record_all-healthy_example :
    (evaluate_status config (record_all ill next_packets) 1020 ≡ healthy)
    ↔ IsRecovered config true 1000 100 1020
unfolding new_state
record_all-healthy_example =
    record_all-healthy config ill next_packets 1020 ill-IsValid
      (record { status = refl; sent = omega arith }, tt) (omega arith) (omega arith)

abbrev image : SensorPayload
image =
    camera (record {
      frame_id = 5;
      width = 2;
      height = 3;
      exposure_time_us = 8;
      extra_data = 1 ∷ 2 ∷ [];
    })

abbrev image_packet : ReceivedPacket
image_packet = received 1 7 camera_meta (payload_layout image)

image_decoded :
    decode_sensor_payload camera_meta (payload_layout image)
    ≡ record { payload = some image; error = SensorPayloadError.no_error }
unfolding validate validate_camera IsPayload message_type
image_decoded =
    decode-encode_sensor_payload image
      (record {
        frame = omega arith;
        columns = omega arith;
        rows = omega arith;
        exposure = omega arith;
        extra = omega arith;
      })
      refl

image_handled :
    (process (λ s. none) no_metrics image_packet).handled ≡ some (make_sample image_packet image)
unfolding process process_decoded
image_handled = rw image_decoded

process-valid_sample_example :
    (validate (make_sample image_packet image).payload ≡ SensorPayloadError.no_error)
    × (message_type (make_sample image_packet image).payload ≡ camera_meta)
process-valid_sample_example =
    process-valid_sample (λ s. none) no_metrics image_packet (make_sample image_packet image)
      (omega arith) image_handled

-- A kernel with one datagram, too short for a header, for the first listener.
abbrev one_datagram : ℕ → ℕ → ℕ × Result (Option (ReceivedDatagram × ℕ))
one_datagram zero index =
    (1, ok (some (record { bytes = 1 ∷ []; source = here.remote_endpoint }, 1000)))
one_datagram (suc k) index = (suc k, ok none)

abbrev one_listener : EpollReceiver
one_listener = record {
  max_datagrams_per_listener_per_poll = 4;
  listeners = here.listener_endpoint ∷ [];
  metrics = record {
    epoll_wakeups = 0;
    datagrams_received = 0;
    packets_accepted = 0;
    packets_rejected = 0;
  };
}

abbrev one_event : EpollWait
one_event = ready (record { readable = true; listener_index = 0 } ∷ [])

poll-SoundResult_example :
    SoundResult 0
      (poll ℕ one_datagram one_listener one_event 0).metrics
      (poll ℕ one_datagram one_listener one_event 0).packets
poll-SoundResult_example =
    poll-SoundResult ℕ one_datagram one_listener one_event 0 refl (omega arith)
