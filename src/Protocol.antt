-- ===== src/Protocol.antt =====
-- src/protocol: the wire format of packets and of the sensor payloads in them.
pub mod Wire
pub mod Packet
pub mod Sensor
pub mod Tests
