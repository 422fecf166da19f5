-- ===== src/Kube.antt =====
-- The Kubernetes objects that the operator builds, with the fields that it sets or reads. The
-- types come from k8s.io/api; they are the data at the operator's border, and hold no code.
mod External
mod Meta
mod Pod
mod Network
mod Access
mod Scaling
pub use External.*
pub use Meta.*
pub use Pod.*
pub use Network.*
pub use Access.*
pub use Scaling.*
