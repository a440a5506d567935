-- ===== src/Simulator/Run.antt =====
-- sensor_simulator.cpp: `run_simulator`.
mod Defs
pub mod Complete
unfoldable pub use Defs.*
