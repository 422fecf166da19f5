-- ===== src/Resources/StatefulSet/Volumes.antt =====
-- internal/resources/statefulset.go and pvc.go: the pod's volumes and the claims for its data.
use talon_db_k8s_operator.Base.{
  String, ◌<>◌, Bool, none, some, List, [], ◌∷◌, ◌++◌, ◌==◌, if◌then◌else◌,
}
use talon_db_k8s_operator.Kube.{
  Platform, ObjectMeta, object_meta, Volume, config_map, empty_dir, claim, PersistentVolumeClaim,
}
use talon_db_k8s_operator.Api.{TlnDb}
use talon_db_k8s_operator.Resources.Common.{
  config_volume_name, data_volume_name, config_map_name, resource_name, labels, enabled_or_default,
}

abbrev claim_access_modes : List String → List String
claim_access_modes [] = "ReadWriteOnce" ∷ []
claim_access_modes (mode ∷ modes) = mode ∷ modes

module _ {K : Platform} where
  abbrev pub persistence_enabled : TlnDb K → Bool
  persistence_enabled inst = enabled_or_default inst.spec.storage.persistence.enabled

  -- The name that the config volume mounts: an external ConfigMap if one is named.
  abbrev mounted_config_map : TlnDb K → String
  mounted_config_map inst = elim inst.spec.config_from [
    | none ↦ config_map_name inst
    | some name ↦ if name == "" then config_map_name inst else name
  ]

  -- The data volume, where no claim template supplies it.
  unfoldable pub data_volumes : TlnDb K → List (Volume K)
  data_volumes inst =
      let existing = inst.spec.storage.persistence.existing_claim in
      if persistence_enabled inst
      then if existing == ""
        then []
        else record { name = data_volume_name; source = claim existing } ∷ []
      else record { name = data_volume_name; source = empty_dir } ∷ []

  unfoldable pub build_volumes : TlnDb K → List (Volume K)
  unfolding data_volumes
  build_volumes inst =
      record { name = config_volume_name; source = config_map (mounted_config_map inst) 0o444 }
        ∷ data_volumes inst
      ++ inst.spec.additional_volumes

  abbrev claim_size : TlnDb K → K.Quantity
  claim_size inst =
      let size = inst.spec.storage.persistence.size in
      if K.quantity_is_zero size then K.must_parse "1Gi" else size

  -- The claim that both builders make, under its own metadata.
  abbrev claim_with : TlnDb K → ObjectMeta K → PersistentVolumeClaim K
  claim_with inst meta = record {
    meta = meta;
    access_modes = claim_access_modes inst.spec.storage.persistence.access_modes;
    requests = ("storage", claim_size inst) ∷ [];
    storage_class_name = inst.spec.storage.persistence.storage_class_name;
  }

  unfoldable pub build_volume_claim_template : TlnDb K → PersistentVolumeClaim K
  unfolding labels
  build_volume_claim_template inst = claim_with inst (object_meta data_volume_name "" (labels inst))

  abbrev pub pvc_name : TlnDb K → String
  pvc_name inst = resource_name inst <> "-data"

  unfoldable pub build_pvc : TlnDb K → PersistentVolumeClaim K
  unfolding labels
  build_pvc inst = claim_with inst (object_meta (pvc_name inst) inst.meta.namespace (labels inst))
