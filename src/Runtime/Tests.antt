-- ===== src/Runtime/Tests.antt =====
-- Runs of the runtime's components at concrete packets.
mod Streams
mod Workers
mod Sources
pub mod Arguments
pub mod Loop
pub mod Sockets
mod Monitor
