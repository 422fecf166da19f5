-- ===== src/DeepCopy/Structs/Spec.antt =====
-- api/v1alpha1/zz_generated.deepcopy.go: the copies of the whole desired state are right.
use talon_db_k8s_operator.Base.{String, refl, [], ◌∷◌}
use talon_db_k8s_operator.Base.Int.{ℤ}
use talon_db_k8s_operator.Kube.{Platform}
use talon_db_k8s_operator.DeepCopy.Copyable.{Lawful, concat}
use talon_db_k8s_operator.DeepCopy.Foreign.{Foreign, LawfulForeign}
use talon_db_k8s_operator.DeepCopy.Laws.{
  Lawful-Built, Built-bind, Built-pure, Lawful-plain, Lawful-pointer_to, Lawful-slice_of,
  Lawful-string_map,
}
use talon_db_k8s_operator.DeepCopy.Structs.Availability.{Lawful-availability_spec}
use talon_db_k8s_operator.DeepCopy.Structs.Networking.{Lawful-networking_spec}
use talon_db_k8s_operator.DeepCopy.Structs.Observability.{Lawful-observability_spec}
use talon_db_k8s_operator.DeepCopy.Structs.Storage.{Lawful-storage_spec}
use talon_db_k8s_operator.DeepCopy.Structs.Workload.{Lawful-image_spec, Lawful-security_spec}
use talon_db_k8s_operator.DeepCopy.Spec.{tln_db_spec, deep_copy_into_tln_db_spec}

pub Lawful-tln_db_spec : {K : Platform} {F : Foreign K} → LawfulForeign F → Lawful (tln_db_spec F)
unfolding deep_copy_into_tln_db_spec
Lawful-tln_db_spec L = Lawful-Built λ x. Built-bind x.image Lawful-image_spec λ y0 e0 n0.
    Built-bind x.replicas (Lawful-pointer_to (Lawful-plain ℤ)) λ y1 e1 n1.
      Built-bind x.config_from (Lawful-pointer_to (Lawful-plain String)) λ y2 e2 n2.
        Built-bind x.env (Lawful-slice_of L.env_var) λ y3 e3 n3.
          Built-bind x.env_from (Lawful-slice_of L.env_from_source) λ y4 e4 n4.
            Built-bind x.resources L.resource_requirements λ y5 e5 n5.
              Built-bind x.storage (Lawful-storage_spec L) λ y6 e6 n6.
                Built-bind x.networking (Lawful-networking_spec L) λ y7 e7 n7.
                  Built-bind x.security (Lawful-security_spec L) λ y8 e8 n8.
                    Built-bind x.observability Lawful-observability_spec λ y9 e9 n9.
                      Built-bind x.availability Lawful-availability_spec λ y10 e10 n10.
                        Built-bind x.node_selector Lawful-string_map λ y11 e11 n11.
                          Built-bind x.tolerations (Lawful-slice_of L.toleration) λ y12 e12 n12.
                            Built-bind x.affinity (Lawful-pointer_to L.affinity) λ y13 e13 n13.
                              Built-bind x.pod_annotations Lawful-string_map λ y14 e14 n14.
                                Built-bind x.init_containers (Lawful-slice_of L.container)
                                  λ y15 e15 n15.
                                    Built-bind x.additional_containers (Lawful-slice_of L.container)
                                      λ y16 e16 n16.
                                        Built-bind x.additional_volumes (Lawful-slice_of L.volume)
                                          λ y17 e17 n17.
                                            Built-bind x.additional_volume_mounts
                                              (Lawful-slice_of L.volume_mount)
                                              λ y18 e18 n18.
                                                Built-pure _
                                                  (λ i. record {
                                                    mode = x.mode;
                                                    replication = x.replication;
                                                    image = e0 i;
                                                    replicas = e1 i;
                                                    config = x.config;
                                                    config_from = e2 i;
                                                    env = e3 i;
                                                    env_from = e4 i;
                                                    resources = e5 i;
                                                    storage = e6 i;
                                                    networking = e7 i;
                                                    security = e8 i;
                                                    observability = e9 i;
                                                    availability = e10 i;
                                                    node_selector = e11 i;
                                                    tolerations = e12 i;
                                                    affinity = e13 i;
                                                    pod_annotations = e14 i;
                                                    service_account_name = x.service_account_name;
                                                    init_containers = e15 i;
                                                    additional_containers = e16 i;
                                                    additional_volumes = e17 i;
                                                    additional_volume_mounts = e18 i;
                                                  })
                                                  (λ i. concat (
                                                    n0 i
                                                    ∷ n1 i
                                                    ∷ n2 i
                                                    ∷ n3 i
                                                    ∷ n4 i
                                                    ∷ n5 i
                                                    ∷ n6 i
                                                    ∷ n7 i
                                                    ∷ n8 i
                                                    ∷ n9 i
                                                    ∷ n10 i
                                                    ∷ n11 i
                                                    ∷ n12 i
                                                    ∷ n13 i
                                                    ∷ n14 i
                                                    ∷ n15 i
                                                    ∷ n16 i
                                                    ∷ n17 i
                                                    ∷ n18 i
                                                    ∷ []))
                                                  refl
