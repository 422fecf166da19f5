-- ===== src/Manager/Scheme.antt =====
-- api/v1alpha1/groupversion_info.go, the `init` of api/v1alpha1/tlndb_types.go and the `init` of
-- cmd/main.go: the scheme, in which the API machinery looks up the Go type of a kind. The scheme and
-- its builder come from apimachinery and controller-runtime, the built-in kinds from client-go.
use talon_db_k8s_operator.Base.{
  String, ◌≡◌, refl, sym, ◌⊎◌, inl, inr, Bool, true, false, List, [], ◌∷◌,
}
use talon_db_k8s_operator.Base.Each.{EachIs, EachIs-map}
use talon_db_k8s_operator.Api.{GroupVersion, group_version, RootType, registered_types, root_kind}
use talon_db_k8s_operator.Controller.Exec.{Result, ok, err}
use talon_db_k8s_operator.Controller.Watches.{GroupVersionKind, kind_of, controller_watches}

pub record SchemeLibrary : Type 1 where
  pub Scheme : Type 0
  pub Builder : Type 0
  pub new_scheme : Scheme
  -- `&scheme.Builder{GroupVersion: …}`
  pub new_builder : GroupVersion → Builder
  pub register : List RootType → Builder → Builder
  pub add_to_scheme : Builder → Scheme → Result Scheme
  -- `AddToScheme` of client-go
  pub client_go_add_to_scheme : Scheme → Result Scheme
  pub recognizes : Scheme → GroupVersionKind → Bool

abbrev pub in_group : GroupVersion → String → GroupVersionKind
in_group gv kind = record { group_version = gv; kind = kind }

-- Kinds of Kubernetes itself, by group. Those of resource definitions that are installed into a
-- cluster, such as the ServiceMonitor of the Prometheus operator, are not among them.
abbrev pub kubernetes_kinds : List GroupVersionKind
kubernetes_kinds =
    kind_of "" "v1" "ConfigMap"
    ∷ kind_of "" "v1" "Event"
    ∷ kind_of "" "v1" "Namespace"
    ∷ kind_of "" "v1" "Node"
    ∷ kind_of "" "v1" "PersistentVolumeClaim"
    ∷ kind_of "" "v1" "Pod"
    ∷ kind_of "" "v1" "Secret"
    ∷ kind_of "" "v1" "Service"
    ∷ kind_of "" "v1" "ServiceAccount"
    ∷ kind_of "apps" "v1" "DaemonSet"
    ∷ kind_of "apps" "v1" "Deployment"
    ∷ kind_of "apps" "v1" "ReplicaSet"
    ∷ kind_of "apps" "v1" "StatefulSet"
    ∷ kind_of "autoscaling" "v2" "HorizontalPodAutoscaler"
    ∷ kind_of "batch" "v1" "CronJob"
    ∷ kind_of "batch" "v1" "Job"
    ∷ kind_of "coordination.k8s.io" "v1" "Lease"
    ∷ kind_of "networking.k8s.io" "v1" "Ingress"
    ∷ kind_of "networking.k8s.io" "v1" "NetworkPolicy"
    ∷ kind_of "policy" "v1" "PodDisruptionBudget"
    ∷ kind_of "rbac.authorization.k8s.io" "v1" "ClusterRole"
    ∷ kind_of "rbac.authorization.k8s.io" "v1" "ClusterRoleBinding"
    ∷ kind_of "rbac.authorization.k8s.io" "v1" "Role"
    ∷ kind_of "rbac.authorization.k8s.io" "v1" "RoleBinding"
    ∷ kind_of "storage.k8s.io" "v1" "StorageClass"
    ∷ []

abbrev Among : GroupVersionKind → List GroupVersionKind → Type 0
Among k [] = ⊥
Among k (other ∷ kinds) = (other ≡ k) ⊎ Among k kinds

EachIs-Among :
    (P : GroupVersionKind → Type 0) (k : GroupVersionKind) (kinds : List GroupVersionKind)
    → EachIs P kinds
    → Among k kinds
    → P k
EachIs-Among P k [] h among = absurd among
EachIs-Among P k (other ∷ kinds) (h, hs) (inl same) = rw (sym same) h
EachIs-Among P k (other ∷ kinds) (h, hs) (inr among) = EachIs-Among P k kinds hs among

-- Every kind that the controller owns is one of Kubernetes.
owned_kinds-Among : EachIs (λ k. Among k kubernetes_kinds) controller_watches.owned_kinds
owned_kinds-Among = (
  inr (inr (inr (inr (inr (inr (inr (inr (inr (inr (inr (inr (inl refl)))))))))))),
  (
    inr (inr (inr (inr (inr (inr (inr (inl refl))))))),
    (
      inl refl,
      (
        inr (inr (inr (inr (inr (inr (inr (inr (inl refl)))))))),
        (
          inr (
              inr (
                inr (
                  inr (
                    inr (
                      inr (
                        inr (
                          inr (
                            inr (
                              inr (
                                inr (
                                  inr (
                                    inr (
                                      inr (
                                        inr (
                                          inr (
                                            inr (
                                              inr
                                                (inr (inr (inr (inr (inl refl)))))))))))))))))))))),
          (
            inr (
                inr (
                  inr (
                    inr (
                      inr (
                        inr (
                          inr (
                            inr (
                              inr (
                                inr (
                                  inr (
                                    inr (
                                      inr (
                                        inr (
                                          inr (
                                            inr (
                                              inr (
                                                inr (
                                                  inr (
                                                    inr (
                                                      inr
                                                        (inr (inr (inl refl))))))))))))))))))))))),
            (
              inr (
                  inr (
                    inr (
                      inr (
                        inr (
                          inr (
                            inr (
                              inr (
                                inr (
                                  inr (inr (inr (inr (inr (inr (inr (inr (inl refl))))))))))))))))),
              (
                inr (
                    inr (
                      inr (
                        inr (
                          inr (
                            inr (
                              inr (
                                inr (
                                  inr (
                                    inr (
                                      inr (
                                        inr
                                          (inr (inr (inr (inr (inr (inr (inl refl)))))))))))))))))),
                (
                  inr (
                      inr (
                        inr (
                          inr (
                            inr (
                              inr (
                                inr (
                                  inr (
                                    inr (
                                      inr (
                                        inr (
                                          inr (
                                            inr (
                                              inr (
                                                inr
                                                  (inr (inr (inr (inr (inl refl))))))))))))))))))),
                  (
                    inr (
                        inr (
                          inr (
                            inr (inr (inr (inr (inr (inr (inr (inr (inr (inr (inl refl))))))))))))),
                    tt,
                  ),
                ),
              ),
            ),
          ),
        ),
      ),
    ),
  ),
)

module _ (S : SchemeLibrary) where
  -- `SchemeBuilder`, and what the package's `init` makes of it
  unfoldable pub scheme_builder : S.Builder
  scheme_builder = S.new_builder group_version

  unfoldable pub registered_builder : S.Builder
  registered_builder = S.register registered_types scheme_builder

  unfoldable pub api_add_to_scheme : S.Scheme → Result S.Scheme
  api_add_to_scheme = S.add_to_scheme registered_builder

  -- `utilruntime.Must`: an error stops the program.
  abbrev pub must : Result S.Scheme → (S.Scheme → Result S.Scheme) → Result S.Scheme
  must (ok s) rest = rest s
  must (err e) rest = err e

  unfoldable pub init_scheme : Result S.Scheme
  init_scheme = must (S.client_go_add_to_scheme S.new_scheme) λ s. must (api_add_to_scheme s) ok

  -- What client-go and the builder document: the kinds of Kubernetes become known, the registered types
  -- of a group that the scheme does not know yet become known under their names, and nothing is
  -- forgotten.
  pub record Registers : Type 0 where
    pub base : S.Scheme
    pub client_go : S.client_go_add_to_scheme S.new_scheme ≡ ok base
    pub built_in : EachIs (λ k. S.recognizes base k ≡ true) kubernetes_kinds
    pub no_more : (kind : String) → S.recognizes base (in_group group_version kind) ≡ false
    pub builder :
        (gv : GroupVersion) (types : List RootType) (s : S.Scheme)
        → ((kind : String) → S.recognizes s (in_group gv kind) ≡ false)
        → (s' : S.Scheme) × (S.add_to_scheme (S.register types (S.new_builder gv)) s ≡ ok s')
          × EachIs (λ t. S.recognizes s' (in_group gv (root_kind t)) ≡ true) types
          × ((k : GroupVersionKind) → S.recognizes s k ≡ true → S.recognizes s' k ≡ true)

  -- Where client-go and the builder do what they document: the start of the program makes a scheme
  -- without an error, and it recognizes the kind that the controller is for, the list of it, and
  -- every kind that the controller owns.
  pub init_scheme-recognizes :
      Registers
      → (s : S.Scheme) × (init_scheme ≡ ok s)
        × (S.recognizes s controller_watches.for_kind ≡ true)
        × (S.recognizes s (in_group group_version "TlnDBList") ≡ true)
        × EachIs (λ k. S.recognizes s k ≡ true) controller_watches.owned_kinds
  unfolding init_scheme api_add_to_scheme registered_builder scheme_builder
  init_scheme-recognizes known =
      let (s, added, (resource, (list, _)), kept) =
        known.builder group_version registered_types known.base known.no_more in
      (
        s,
        rw (known.client_go, added) refl,
        resource,
        list,
        EachIs-map _ _ controller_watches.owned_kinds
            (λ k among. kept k (
              EachIs-Among (λ k. S.recognizes known.base k ≡ true) k kubernetes_kinds known.built_in
                among))
            owned_kinds-Among,
      )
