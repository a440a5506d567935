-- ===== src/Runtime/Receiver.antt =====
-- src/runtime/epoll_receiver.cpp and its header: one poll over the listeners.
mod Defs
pub mod Setup
pub mod Create
pub mod Owned
pub mod Poll
unfoldable pub use Defs.*
