-- ===== src/Kube/External.antt =====
-- What the operator takes from outside its repository and never looks into: the Kubernetes types
-- that it only copies from the custom resource into a pod, `resource.Quantity`, the SHA-256 digest
-- and the Unicode table behind `%q`. They are one record, and a parameter of the whole model.
use Prim.Native.Nat.{ℕ}
use Prim.Native.String.{String}
use mathlib.Core.Bool.{Bool}

pub record Platform : Type 1 where
  pub Affinity : Type 0
  pub Toleration : Type 0
  pub EnvFromSource : Type 0
  pub EnvVarSource : Type 0
  pub ResourceRequirements : Type 0
  -- a volume source other than the three kinds that the operator writes
  pub OtherSource : Type 0
  -- the fields of a container, a mount and the security contexts that the operator never sets
  pub ContainerRest : Type 0
  pub VolumeMountRest : Type 0
  pub PodSecurityRest : Type 0
  pub SecurityRest : Type 0
  pub NetworkPolicyPeer : Type 0
  pub OwnerReference : Type 0
  pub Quantity : Type 0
  pub quantity_is_zero : Quantity → Bool
  pub must_parse : String → Quantity
  pub sha256_hex : String → String
  -- `unicode.IsPrint` from U+0080 on
  pub is_print : ℕ → Bool
