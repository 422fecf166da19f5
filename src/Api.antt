-- ===== src/Api.antt =====
-- api/v1alpha1: the TlnDB custom resource.
mod Spec
mod Status
mod Group
pub use Spec.*
pub use Status.*
pub use Group.*
