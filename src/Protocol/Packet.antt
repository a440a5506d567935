-- ===== src/Protocol/Packet.antt =====
-- src/protocol/packet.cpp and include/driveflow/protocol/packet.hpp: the packet envelope, its
-- checksum, the encoder and the decoder. Words are natural numbers below 2 ^ 16, 2 ^ 32 or 2 ^ 64.
mod Defs
pub mod Layout
pub mod Crc
pub mod RoundTrip
pub mod Codec
pub mod Corruption
unfoldable pub use Defs.*
