-- ===== src/Runtime.antt =====
-- The runtime: src/runtime and include/driveflow/runtime.
pub mod Received
pub mod Tracker
pub mod Health
pub mod Pipeline
pub mod Samples
pub mod Receiver
pub mod Config
pub mod Loop
pub mod Tests
