-- ===== src/Resources/Selectors.antt =====
-- Label selectors (`matchLabels`) against pod labels, and what the operator's label maps hold.
use talon_db_k8s_operator.Base.{String, ◌≡◌, refl, ◌≢◌, some, [], ◌∷◌, string_dec}
use talon_db_k8s_operator.Base.Dict.{Dict, lookup}
use talon_db_k8s_operator.Kube.{Platform}
use talon_db_k8s_operator.Api.{TlnDb}
use talon_db_k8s_operator.Resources.Common.{labels, selector_labels, role_selector, with_role}

-- Every entry of the selector stands among the labels.
abbrev pub Selects : Dict String → Dict String → Type 0
Selects [] pod = Unit
Selects ((k, v) ∷ selector) pod = (lookup k pod ≡ some v) × Selects selector pod

-- The labels of a pod that the operator builds for a role.
abbrev pub pod_labels : {K : Platform} → TlnDb K → String → Dict String
pod_labels inst role = with_role (labels inst) role

module _ {K : Platform} (inst : TlnDb K) (role : String) where
  pub selector_labels-Selects : Selects (selector_labels inst) (pod_labels inst role)
  unfolding selector_labels with_role labels lookup string_dec
  selector_labels-Selects = (refl, (refl, tt))

  pub role_selector-Selects : Selects (role_selector inst role) (pod_labels inst role)
  unfolding role_selector with_role labels lookup string_dec
  role_selector-Selects = (refl, (refl, (refl, tt)))

  pub not-role_selector-Selects :
      (other : String)
      → role ≢ other
      → ¬ (Selects (role_selector inst role) (pod_labels inst other))
  unfolding role_selector with_role labels lookup string_dec
  not-role_selector-Selects other differ s = differ (cc s.1.1.0)
