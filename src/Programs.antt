-- ===== src/Programs.antt =====
-- apps/*.cpp: the programs, each as what it prints and the status it exits with.
pub mod Output
pub mod UdpSender
pub mod UdpReceiver
pub mod Runtime
pub mod SensorSimulator
pub mod Simulated
pub mod Exchange
pub mod Owned
mod Tests
