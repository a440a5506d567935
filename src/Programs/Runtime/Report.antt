-- ===== src/Programs/Runtime/Report.antt =====
-- apps/runtime_main.cpp: what the program prints of a summary. A rate and a time in milliseconds are
-- doubles in the code, which prints two of their decimals: they stand as the integers that they are
-- computed from.
use Prim.Native.String.{String, ◌++◌ as ◌<>◌}
use driveflow_runtime.Prelude.{ℕ, List, [], ◌∷◌, ◌++◌}
use driveflow_runtime.Protocol.Packet.{MessageType, imu, gnss, camera_meta, other}
use driveflow_runtime.Runtime.Health.{
  Rate, SourceHealthStatus, unknown, healthy, degraded, offline, SourceHealthSnapshot,
}
use driveflow_runtime.Runtime.Loop.State.{RuntimeSummary}
use driveflow_runtime.Programs.Output.{Piece, literal, number, print_endpoint}

abbrev pub runtime_usage : String
runtime_usage =
    "usage: driveflow_runtime [options]\n"
    <> "  --listen <IPv4:port>       listen endpoint; may be repeated\n"
    <> "  --count <packets>           stop after receiving this many valid packets\n"
    <> "  --poll-timeout-ms <ms>      epoll wait timeout (default: 100)\n"
    <> "  --max-drain <datagrams>     per-listener drain limit (default: 64)\n"
    <> "  --max-sources <sources>     tracked sensor source limit (default: 256)\n"
    <> "  --health-degraded-ms <ms>  silence before DEGRADED (default: 500)\n"
    <> "  --health-offline-ms <ms>   silence before OFFLINE (default: 2000)\n"
    <> "  --health-recovery-ms <ms>  issue-free recovery time (default: 1000)\n"
    <> "  --workers <threads>          worker thread count (default: 2)\n"
    <> "  --queue-capacity <packets>  maximum waiting packets (default: 1024)\n"
    <> "default listener: 0.0.0.0:9000\n"

abbrev pub message_type_name : MessageType → String
message_type_name imu = "imu"
message_type_name gnss = "gnss"
message_type_name camera_meta = "camera-meta"
message_type_name (other n) = "unknown"

abbrev pub to_string : SourceHealthStatus → String
to_string unknown = "UNKNOWN"
to_string healthy = "HEALTHY"
to_string degraded = "DEGRADED"
to_string offline = "OFFLINE"

-- A rate, and a time of so many nanoseconds in milliseconds, as printed.
pub data Printed : Type 0 where
  piece : Piece → Printed
  rate_hz : Rate → Printed
  milliseconds : ℕ → Printed

abbrev pub pieces : List Piece → List Printed
pieces [] = []
pieces (p ∷ rest) = piece p ∷ pieces rest

-- A name and its value.
abbrev field : String → ℕ → List Printed → List Printed
field name value rest = piece (literal name) ∷ piece (number value) ∷ rest

unfoldable pub print_summary : RuntimeSummary → List Printed
print_summary s =
    piece (literal "runtime stopped")
    ∷ field " received=" s.packets_received (
        field " datagrams=" s.receiver_metrics.datagrams_received (
          field " accepted=" s.receiver_metrics.packets_accepted (
            field " rejected=" s.receiver_metrics.packets_rejected (
              field " epoll_wakeups=" s.receiver_metrics.epoll_wakeups (
                field " streams_observed=" s.stream_metrics.streams_observed (
                  field " packets_observed=" s.stream_metrics.packets_observed (
                    field " first_observations=" s.stream_metrics.first_observations (
                      field " in_order_observations=" s.stream_metrics.in_order_observations (
                        field " gap_observations=" s.stream_metrics.gap_observations (
                          field " duplicate_observations=" s.stream_metrics.duplicate_observations (
                            field " reordered_observations=" s.stream_metrics.reordered_observations
                              (field " untracked_observations="
                                s.stream_metrics.untracked_observations
                                (field " missing_samples_inferred="
                                  s.stream_metrics.missing_samples_inferred
                                  (field " submitted=" s.pipeline_metrics.packets_submitted (
                                    field " processed=" s.pipeline_metrics.packets_processed (
                                      field " dropped_queue_full="
                                        s.pipeline_metrics.packets_dropped_queue_full
                                        (field " rejected_stopped="
                                          s.pipeline_metrics.packets_rejected_stopped
                                          (field " handler_failures="
                                            s.pipeline_metrics.handler_failures
                                            (field " queue_high_watermark="
                                              s.pipeline_metrics.queue_high_watermark
                                              (field " packets_examined="
                                                s.sample_metrics.packets_examined
                                                (field " samples_decoded="
                                                  s.sample_metrics.samples_decoded
                                                  (field " payloads_rejected="
                                                    s.sample_metrics.payloads_rejected
                                                    (field " imu_samples="
                                                      s.sample_metrics.imu_samples
                                                      (field " gnss_samples="
                                                        s.sample_metrics.gnss_samples
                                                        (field " camera_meta_samples="
                                                          s.sample_metrics.camera_meta_samples
                                                          (piece (literal "\n")
                                                            ∷ []))))))))))))))))))))))))))

unfoldable pub print_source : SourceHealthSnapshot → List Printed
print_source source =
    piece (literal "source_health")
    ∷ piece (literal " remote=")
    ∷ (pieces (print_endpoint source.source.remote_endpoint [])
        ++ piece (literal " listener=")
          ∷ (pieces (print_endpoint source.source.listener_endpoint [])
              ++ piece (literal " message_type=")
                ∷ piece (literal (message_type_name source.source.message_type))
                ∷ piece (literal " status=")
                ∷ piece (literal (to_string source.status))
                ∷ field " packets_received=" source.packets_received (
                    piece (literal " rate_hz=")
                    ∷ rate_hz source.current_rate_hz
                    ∷ piece (literal " inactivity_ms=")
                    ∷ milliseconds source.inactivity_ns
                    ∷ piece (literal " latest_latency_ms=")
                    ∷ milliseconds source.latest_latency_ns
                    ∷ piece (literal " maximum_latency_ms=")
                    ∷ milliseconds source.maximum_latency_ns
                    ∷ field " timestamp_anomalies=" source.timestamp_anomalies (
                        field " gaps=" source.gap_observations (
                          field " duplicates=" source.duplicate_observations (
                            field " reordered=" source.reordered_observations (
                              field " missing_inferred=" source.missing_samples_inferred (
                                field " payloads_rejected=" source.payloads_rejected (
                                  field " dropped_queue_full=" source.packets_dropped_queue_full
                                    (piece (literal "\n") ∷ []))))))))))

unfoldable pub print_sources : List SourceHealthSnapshot → List Printed
unfolding print_source
print_sources [] = []
print_sources (source ∷ rest) = print_source source ++ print_sources rest
