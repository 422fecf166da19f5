-- ===== src/Resources.antt =====
-- internal/resources: the builders of the objects that the operator owns, a module for each file.
pub mod Common
pub mod Hash
pub mod ConfigMap
pub mod StatefulSet
pub mod Service
pub mod Ingress
pub mod NetworkPolicy
pub mod Rbac
pub mod ServiceMonitor
pub mod Pdb
pub mod Hpa
pub mod Selectors
pub mod PortAgreement
pub mod Names
pub mod References
