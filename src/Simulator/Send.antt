-- ===== src/Simulator/Send.antt =====
-- sensor_simulator.cpp: waiting and sending.
mod Defs
pub mod Wait
pub mod Totals
unfoldable pub use Defs.*
