-- ===== src/Examples.antt =====
-- Concrete instances, and each property at one of them.
pub mod Fixture
pub mod Cluster
mod Objects
mod Controller
mod Quiet
mod Healthy
mod Outcomes
mod Config
mod Manager
mod Rounds
mod Store
mod Scaled
mod Deletion
mod Installs
mod Memory
mod Scheme
