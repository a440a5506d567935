-- ===== src/Runtime/Pipeline.antt =====
-- src/runtime/worker_pipeline.cpp and its header: the bounded queue and its worker threads.
mod Defs
pub mod Run
pub mod Steps
pub mod Invariant
pub mod Drain
pub mod Create
pub mod Created
unfoldable pub use Defs.*
