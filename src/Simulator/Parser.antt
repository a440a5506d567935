-- ===== src/Simulator/Parser.antt =====
-- sensor_simulator.cpp: `parse_simulator_config` and what it promises.
mod Defs
pub mod Options
pub mod Valid
unfoldable pub use Defs.*
