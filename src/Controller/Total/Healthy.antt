-- ===== src/Controller/Total/Healthy.antt =====
-- A healthy API server, which no other client changes meanwhile: calls succeed, and reads find an
-- object or report that it is missing. The owner of an object can be set where the object is in the
-- owner's namespace and has no owner yet, as controllerutil documents.
use talon_db_k8s_operator.Base.{String, ◌≡◌, refl, ◌∙◌, ◌⊎◌, []}
use talon_db_k8s_operator.Kube.{Platform, ObjectMeta}
use talon_db_k8s_operator.Api.{TlnDbStatus, TlnDb}
use talon_db_k8s_operator.Controller.Exec.{not_found, ok, err, Exec}
use talon_db_k8s_operator.Controller.Environment.{Key, KindClient, Runtime}

-- What a status patch leaves of an instance.
pub record SameAs {K : Platform} (inst inst' : TlnDb K) : Type 0 where
  pub spec : inst'.spec ≡ inst.spec
  pub name : inst'.meta.name ≡ inst.meta.name
  pub namespace : inst'.meta.namespace ≡ inst.meta.namespace
  pub generation : inst'.meta.generation ≡ inst.meta.generation
  pub deletion : inst'.meta.deletion_timestamp ≡ inst.meta.deletion_timestamp

pub same_refl : {K : Platform} (inst : TlnDb K) → SameAs inst inst
same_refl inst = record {
  spec = refl;
  name = refl;
  namespace = refl;
  generation = refl;
  deletion = refl;
}

-- A change of the status alone
pub status_only :
    {K : Platform} (inst : TlnDb K) (status : TlnDbStatus)
    → SameAs inst (record inst { status = status })
status_only inst status = record {
  spec = refl;
  name = refl;
  namespace = refl;
  generation = refl;
  deletion = refl;
}

pub same_trans : {K : Platform} {a b c : TlnDb K} → SameAs a b → SameAs b c → SameAs a c
same_trans h k = record {
  spec = k.spec ∙ h.spec;
  name = k.name ∙ h.name;
  namespace = k.namespace ∙ h.namespace;
  generation = k.generation ∙ h.generation;
  deletion = k.deletion ∙ h.deletion;
}

pub record Answers {W A : Type 0} (m : Exec W A) : Type 0 where
  pub at : (w : W) → (a : A) × ((m w).0 ≡ ok a)

pub record AnswersOrMissing {W A : Type 0} (m : Exec W A) : Type 0 where
  pub at :
      (w : W)
      → ((a : A) × ((m w).0 ≡ ok a))
        ⊎ ((message : String) × ((m w).0 ≡ err (record { reason = not_found; message = message })))

pub record HealthyKind {W T : Type 0} (client : KindClient W T) : Type 0 where
  pub get : (key : Key) → AnswersOrMissing (client.get key)
  pub create : (object : T) → Answers (client.create object)
  pub update : (object : T) → Answers (client.update object)
  pub delete : (object : T) → Answers (client.delete object)

-- The server's answer to a status patch that it accepts.
pub record Writes {K : Platform} {W : Type 0} (inst : TlnDb K) (m : Exec W (TlnDb K)) : Type 0 where
  pub at :
      (w : W)
      → (answer : TlnDb K) × ((m w).0 ≡ ok answer)
        × SameAs inst answer
        × (answer.status ≡ inst.status)

pub record Healthy {K : Platform} (R : Runtime K) : Type 0 where
  pub patch_status : (base inst : TlnDb K) → Writes inst (R.instances.patch_status base inst)
  pub stateful_sets : HealthyKind R.stateful_sets
  pub services : HealthyKind R.services
  pub config_maps : HealthyKind R.config_maps
  pub service_accounts : HealthyKind R.service_accounts
  pub roles : HealthyKind R.roles
  pub role_bindings : HealthyKind R.role_bindings
  pub ingresses : HealthyKind R.ingresses
  pub network_policies : HealthyKind R.network_policies
  pub pod_disruption_budgets : HealthyKind R.pod_disruption_budgets
  pub autoscalers : HealthyKind R.autoscalers
  pub service_monitors : HealthyKind R.service_monitors
  pub set_controller_reference :
      (inst : TlnDb K) (meta : ObjectMeta K)
      → meta.namespace ≡ inst.meta.namespace
      → meta.owner_references ≡ []
      → (owned : ObjectMeta K) × (R.set_controller_reference inst meta ≡ ok owned)
