-- ===== src/DeepCopy/Structs.antt =====
-- The generated copies are right, struct by struct.
pub mod Availability
pub mod Networking
pub mod Observability
pub mod Storage
pub mod Workload
pub mod Spec
pub mod Status
pub mod Resource
