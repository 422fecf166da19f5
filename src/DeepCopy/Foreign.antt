-- ===== src/DeepCopy/Foreign.antt =====
-- The types of the Kubernetes API modules that the custom resource holds, with the deep copies that
-- those modules generate for them. They are parameters.
use talon_db_k8s_operator.Base.{ℕ}
use talon_db_k8s_operator.Kube.{
  Platform, ObjectMeta, EnvVar, Container, Volume, VolumeMount, PodSecurityContext, SecurityContext,
  NetworkPolicyRule,
}
use talon_db_k8s_operator.Api.{Condition}
use talon_db_k8s_operator.DeepCopy.Copyable.{Copyable, Lawful}

pub record Foreign (K : Platform) : Type 1 where
  pub ListMeta : Type 0
  pub object_meta : Copyable (ObjectMeta K)
  pub list_meta : Copyable ListMeta
  pub condition : Copyable Condition
  -- a `*metav1.Time` that is not nil
  pub time_pointer : Copyable ℕ
  pub quantity : Copyable K.Quantity
  pub env_var : Copyable (EnvVar K)
  pub env_from_source : Copyable K.EnvFromSource
  pub resource_requirements : Copyable K.ResourceRequirements
  pub toleration : Copyable K.Toleration
  pub affinity : Copyable K.Affinity
  pub container : Copyable (Container K)
  pub volume : Copyable (Volume K)
  pub volume_mount : Copyable (VolumeMount K)
  pub pod_security_context : Copyable (PodSecurityContext K)
  pub security_context : Copyable (SecurityContext K)
  pub ingress_rule : Copyable (NetworkPolicyRule K)
  pub egress_rule : Copyable (NetworkPolicyRule K)

-- What the documentation of a deep copy says, for each of them.
pub record LawfulForeign {K : Platform} (F : Foreign K) : Type 0 where
  pub object_meta : Lawful F.object_meta
  pub list_meta : Lawful F.list_meta
  pub condition : Lawful F.condition
  pub time_pointer : Lawful F.time_pointer
  pub quantity : Lawful F.quantity
  pub env_var : Lawful F.env_var
  pub env_from_source : Lawful F.env_from_source
  pub resource_requirements : Lawful F.resource_requirements
  pub toleration : Lawful F.toleration
  pub affinity : Lawful F.affinity
  pub container : Lawful F.container
  pub volume : Lawful F.volume
  pub volume_mount : Lawful F.volume_mount
  pub pod_security_context : Lawful F.pod_security_context
  pub security_context : Lawful F.security_context
  pub ingress_rule : Lawful F.ingress_rule
  pub egress_rule : Lawful F.egress_rule
