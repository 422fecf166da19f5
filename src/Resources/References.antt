-- ===== src/Resources/References.antt =====
-- internal/resources/ingress.go and rbac.go: the objects that other objects name.
use talon_db_k8s_operator.Base.{String, ◌≡◌, refl, ◌⊎◌, inl, inr, List, [], ◌∷◌, map, ==_iff}
use talon_db_k8s_operator.Base.Int.{ℤ}
use talon_db_k8s_operator.Kube.{
  Platform, ServicePort, Service, Ingress, Role, RoleRef, PolicyRule, Subject, ServiceAccount,
  ContainerPort, ConfigMap, StatefulSet, from_string,
}
use talon_db_k8s_operator.Api.{TlnDb}
use talon_db_k8s_operator.Resources.Common.{default_http_port, port_from_addr}
use talon_db_k8s_operator.Resources.ConfigMap.{build_config_map}
use talon_db_k8s_operator.Resources.StatefulSet.{StsParams, build_stateful_set_with}
use talon_db_k8s_operator.Resources.StatefulSet.Container.{
  container_ports, build_main_container, build_containers,
}
use talon_db_k8s_operator.Resources.Service.{
  service_with, build_service, build_write_service, build_service_ports,
}
use talon_db_k8s_operator.Resources.Ingress.{build_ingress}
use talon_db_k8s_operator.Resources.Rbac.{build_service_account, build_role, build_role_binding}

-- Some element of a list is such.
abbrev Some : {A : Type 0} → (A → Type 0) → List A → Type 0
Some P [] = ⊥
Some P (x ∷ xs) = P x ⊎ Some P xs

-- Traffic for a number of the Service arrives at that number of a container: a Service port has the
-- number, and its target names a container port that has it.
abbrev Forwards : ℤ → List ServicePort → List ContainerPort → Type 0
Forwards number ports listening =
    Some
      (λ port.
        (port.port ≡ number)
        × Some (λ c. (port.target_port ≡ from_string c.name) × (c.container_port ≡ number))
            listening)
      ports

abbrev pub backends : {K : Platform} → Ingress K → List (List (String × ℤ))
backends ingress =
    map (λ rule. map (λ path. (path.service_name, path.service_port)) rule.paths) ingress.spec.rules

-- The Ingress has one backend, which is this Service under a port number that the Service forwards
-- to a container of the set.
abbrev pub Serves : {K : Platform} → ℤ → Ingress K → Service K → StatefulSet K → Type 0
Serves number ingress service sts =
    (service.meta.namespace ≡ ingress.meta.namespace)
    × (sts.meta.namespace ≡ service.meta.namespace)
    × (backends ingress ≡ ((service.meta.name, number) ∷ []) ∷ [])
    × Some (λ c. Forwards number service.spec.ports c.ports) sts.spec.template.spec.containers

-- What RBAC needs of a binding: a reference to the role, and the subject that an account is.
abbrev pub role_ref_to : {K : Platform} → Role K → RoleRef
role_ref_to role = record {
  api_group = "rbac.authorization.k8s.io";
  kind = "Role";
  name = role.meta.name;
}

abbrev pub subject_of : {K : Platform} → ServiceAccount K → Subject
subject_of account = record {
  kind = "ServiceAccount";
  name = account.meta.name;
  namespace = account.meta.namespace;
}

-- Reading one ConfigMap, and no other.
abbrev pub reading : {K : Platform} → ConfigMap K → PolicyRule
reading cm = record {
  api_groups = "" ∷ [];
  resources = "configmaps" ∷ [];
  resource_names = cm.meta.name ∷ [];
  verbs = "get" ∷ "watch" ∷ "list" ∷ [];
}

-- Telling of events.
abbrev pub recording : PolicyRule
recording = record {
  api_groups = "" ∷ [];
  resources = "events" ∷ [];
  resource_names = [];
  verbs = "create" ∷ "patch" ∷ [];
}

module _ {K : Platform} (inst : TlnDb K) (hash : String) (p : StsParams K) where
  Forwards-http :
      Forwards
        (port_from_addr inst.spec.config.http default_http_port)
        (build_service_ports inst)
        (container_ports inst)
  unfolding build_service_ports container_ports
  Forwards-http = inr (inl (refl, inr (inl (refl, refl))))

  -- The Ingress has one backend, under the port of the instance's HTTP address (8080 by default).
  -- The standalone Service has its name and namespace, and so has the write Service of replicated
  -- mode; each forwards that port to the container port of the same number in a StatefulSet's pods.
  pub build_ingress-Serves :
      let http = port_from_addr inst.spec.config.http default_http_port in
      let sts = build_stateful_set_with inst hash p in
      Serves http (build_ingress inst) (build_service inst) sts
      × Serves http (build_ingress inst) (build_write_service inst) sts
  unfolding build_ingress build_service build_write_service service_with build_stateful_set_with
      build_containers build_main_container
  build_ingress-Serves =
      ((refl, refl, refl, inl Forwards-http), (refl, refl, refl, inl Forwards-http))

  -- The binding refers to the role and has one subject, the service account, and the role, the
  -- binding, the account, the rendered ConfigMap and the StatefulSet are in one namespace. All
  -- that the role grants is to read that ConfigMap and to record events. Unless the user names
  -- another account, the pods of the StatefulSet run under this one.
  pub rbac_agrees :
      inst.spec.service_account_name ≡ ""
      → let namespace = (build_stateful_set_with inst hash p).meta.namespace in
        ((build_role_binding inst).role_ref ≡ role_ref_to (build_role inst))
        × ((build_role_binding inst).subjects ≡ subject_of (build_service_account inst) ∷ [])
        × ((build_role inst).rules ≡ reading (build_config_map inst) ∷ recording ∷ [])
        × ((build_role inst).meta.namespace ≡ namespace)
        × ((build_role_binding inst).meta.namespace ≡ namespace)
        × ((build_service_account inst).meta.namespace ≡ namespace)
        × ((build_config_map inst).meta.namespace ≡ namespace)
        × ((build_stateful_set_with inst hash p).spec.template.spec.service_account_name
            ≡ (build_service_account inst).meta.name)
  unfolding build_role_binding build_role build_service_account build_config_map
      build_stateful_set_with
  rbac_agrees default = (
    refl,
    refl,
    refl,
    refl,
    refl,
    refl,
    refl,
    rw ((==_iff inst.spec.service_account_name "").1 default) refl,
  )
