-- ===== src/Programs/Runtime.antt =====
-- apps/runtime_main.cpp.
mod Report
mod Defs
pub mod Outcome
unfoldable pub use Report.*
unfoldable pub use Defs.*
