-- ===== src/Resources/StatefulSet/DataVolume.antt =====
-- internal/resources/statefulset.go: the volumes behind the container's mounts.
use talon_db_k8s_operator.Base.{
  ℕ, suc, String, ◌≡◌, refl, List, [], ◌∷◌, ◌++◌, map, Bool-cases, inl, inr, ◌==◌, if◌then◌else◌,
  string_dec, ◌<>◌, true, false, none,
}
use talon_db_k8s_operator.Base.Each.{EachIs}
use talon_db_k8s_operator.Kube.{Platform, Container, VolumeMount, StatefulSet}
use talon_db_k8s_operator.Api.{TlnDb}
use talon_db_k8s_operator.Resources.Common.{
  config_volume_name, config_mount_path, config_file_name, data_volume_name, data_mount_path,
}
use talon_db_k8s_operator.Resources.StatefulSet.{StsParams, build_stateful_set_with}
use talon_db_k8s_operator.Resources.StatefulSet.Container.{build_main_container, build_containers}
use talon_db_k8s_operator.Resources.StatefulSet.Volumes.{persistence_enabled}

abbrev pub occurrences : String → List String → ℕ
occurrences name [] = 0
occurrences name (other ∷ names) =
    let rest = occurrences name names in if name == other then suc rest else rest

-- The names under which a pod of the set can mount: its claims' and its volumes'.
abbrev pub mountable : {K : Platform} → StatefulSet K → List String
mountable sts =
    map (λ c. c.meta.name) sts.spec.volume_claim_templates
    ++ map (λ v. v.name) sts.spec.template.spec.volumes

abbrev pub additional_names : {K : Platform} → TlnDb K → List String
additional_names inst = map (λ v. v.name) inst.spec.additional_volumes

-- The volumes that the operator makes are one of this name, and no other: two would be invalid, and
-- without one the mount would not be found.
abbrev pub MountResolves : {K : Platform} → TlnDb K → StatefulSet K → VolumeMount K → Type 0
MountResolves inst sts mount =
    occurrences mount.name (mountable sts) ≡ suc (occurrences mount.name (additional_names inst))

-- The mounts of the main container that the operator makes.
abbrev own_mounts : {K : Platform} → List (VolumeMount K)
own_mounts =
    record {
      name = config_volume_name;
      mount_path = config_mount_path;
      read_only = true;
      other = none;
    }
    ∷ record {
      name = data_volume_name;
      mount_path = data_mount_path;
      read_only = false;
      other = none;
    }
    ∷ []

module _ {K : Platform} (inst : TlnDb K) (hash : String) (p : StsParams K) where
  -- The first container of the set mounts a config path and a data path, and beside them just what
  -- the user adds; it reads its configuration file below the config path. Whatever the persistence
  -- settings, each of the two mounts finds exactly one volume or claim beside the volumes that the
  -- user adds: never two, and never none.
  pub mounts_resolve :
      let sts = build_stateful_set_with inst hash p in
      (main : Container K) × (own : List (VolumeMount K)) × (sts.spec.template.spec.containers
        ≡ main ∷ inst.spec.additional_containers)
      × (main.volume_mounts ≡ own ++ inst.spec.additional_volume_mounts)
      × (map (λ m. m.mount_path) own ≡ config_mount_path ∷ data_mount_path ∷ [])
      × (main.args ≡ "--config" ∷ (config_mount_path <> "/" <> config_file_name) ∷ [])
      × EachIs (MountResolves inst sts) own
  unfolding build_stateful_set_with build_containers build_main_container string_dec
  mounts_resolve =
      let env = p.extra_env in
      let resolved : EachIs (MountResolves inst (build_stateful_set_with inst hash p)) own_mounts =
        elim (Bool-cases (persistence_enabled inst)) [
          | inr off ↦ rw off (refl, (refl, tt))
          | inl on ↦ elim (Bool-cases (inst.spec.storage.persistence.existing_claim == "")) [
            | inl none_given ↦ rw (on, none_given) (refl, (refl, tt))
            | inr given ↦ rw (on, given) (refl, (refl, tt))
          ]
        ] in
      (build_main_container inst env, own_mounts, refl, refl, refl, refl, resolved)
