-- ===== src/DeepCopy.antt =====
-- api/v1alpha1/zz_generated.deepcopy.go: the deep copies of the custom resource, with the cells of
-- memory that they read and make.
pub mod Alloc
pub mod Fresh
pub mod Copyable
pub mod Laws
pub mod Foreign
pub mod Availability
pub mod Networking
pub mod Observability
pub mod Storage
pub mod Workload
pub mod Spec
pub mod Status
pub mod Resource
pub mod PatchBase
pub mod Structs
pub mod Objects
pub mod Package
