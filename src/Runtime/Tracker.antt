-- ===== src/Runtime/Tracker.antt =====
-- src/runtime/sensor_stream_tracker.cpp and its header: per-source classification of sequence
-- numbers, with a bitmap of the 64 most recent positions.
mod Defs
pub mod History
pub mod Refine
pub mod Table
pub mod Spec
pub mod Stream
pub mod Accounting
unfoldable pub use Defs.*
