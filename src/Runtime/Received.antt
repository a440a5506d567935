-- ===== src/Runtime/Received.antt =====
-- include/driveflow/runtime/epoll_receiver.hpp and sensor_stream_tracker.hpp: a packet with the
-- endpoints that it travelled between, and the stream that it belongs to. Also the arithmetic of
-- 64-bit counters.
use driveflow_runtime.Prelude.{ℕ, ◌+◌, ◌-◌, ◌%◌, ◌^◌, Bool, ◌&&◌, ltb, ◌==◌, if◌then◌else◌}
use driveflow_runtime.Net.{Ipv4Endpoint, endpoint_eq}
use driveflow_runtime.Protocol.Packet.{Packet, MessageType, to_raw}

pub record ReceivedPacket : Type 0 where
  pub packet : Packet
  pub source : Ipv4Endpoint
  pub listener : Ipv4Endpoint
  pub receive_timestamp_ns : ℕ

pub record SensorSource : Type 0 where
  pub remote_endpoint : Ipv4Endpoint
  pub listener_endpoint : Ipv4Endpoint
  pub message_type : MessageType

unfoldable pub source_eq : SensorSource → SensorSource → Bool
source_eq a b =
    endpoint_eq a.remote_endpoint b.remote_endpoint
    && (endpoint_eq a.listener_endpoint b.listener_endpoint
        && to_raw a.message_type == to_raw b.message_type)

unfoldable pub identify_sensor_source : ReceivedPacket → SensorSource
identify_sensor_source p = record {
  remote_endpoint = p.source;
  listener_endpoint = p.listener;
  message_type = p.packet.header.message_type;
}

-- `++counter` on std::uint64_t
abbrev pub increment : ℕ → ℕ
increment n = (n + 1) % 2 ^ 64

abbrev pub u64_max : ℕ
u64_max = 2 ^ 64 - 1

abbrev pub saturating_add : ℕ → ℕ → ℕ
saturating_add value amount = if ltb (u64_max - value) amount then u64_max else value + amount
