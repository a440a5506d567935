-- ===== src/Simulator/Faults.antt =====
-- sensor_simulator.cpp: the fault injector.
mod Defs
pub mod Order
unfoldable pub use Defs.*
