-- ===== src/Runtime/Health.antt =====
-- src/runtime/source_health_monitor.cpp and its header: per-source measurements and health states.
mod Defs
mod Monitor
pub mod Ring
pub mod Status
pub mod Source
pub mod Table
pub mod Records
pub mod Events
pub mod Order
pub mod Recovery
unfoldable pub use Defs.*
unfoldable pub use Monitor.*
