-- ===== src/Runtime/Config.antt =====
-- src/runtime/runtime_config.cpp and its header: the option parser of the runtime.
mod Defs
pub mod Options
unfoldable pub use Defs.*
