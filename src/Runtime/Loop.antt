-- ===== src/Runtime/Loop.antt =====
-- src/runtime/runtime.cpp and its header: the runtime, which runs the parts together.
mod Defs
pub mod State
pub mod Steps
pub mod Phases
pub mod Invariant
pub mod Main
pub mod Threads
pub mod Complete
pub mod Accepted
pub mod Started
pub mod Sources
pub mod Joins
pub mod Joined
pub mod Stopped
unfoldable pub use Defs.*
