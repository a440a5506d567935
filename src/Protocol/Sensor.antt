-- ===== src/Protocol/Sensor.antt =====
-- src/protocol/sensor_payload.cpp and its header: the typed payloads.
mod Defs
pub mod Layout
pub mod Codec
pub mod Ranges
unfoldable pub use Defs.*
