-- ===== src/Simulator.antt =====
-- src/simulator/sensor_simulator.cpp and its header: the generator of sensor packets with faults.
pub mod Config
pub mod Faults
pub mod Samples
pub mod World
pub mod Send
pub mod Run
pub mod Parser
pub mod Tests
