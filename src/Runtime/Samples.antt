-- ===== src/Runtime/Samples.antt =====
-- src/runtime/sensor_sample_processor.cpp and its header: from packets to typed samples.
mod Defs
pub mod Counts
unfoldable pub use Defs.*
