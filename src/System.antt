-- ===== src/System.antt =====
-- The simulator, the receiver and the stream tracker together.
pub mod Stream
mod Tests
