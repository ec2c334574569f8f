-- ===== src/Device.antt =====
-- The devices that circuits are mapped to (src/device/device.{hpp,cpp}).
pub mod Qubit
pub mod Topology
pub mod State
pub mod Path
pub mod Writes
pub mod Coupling
