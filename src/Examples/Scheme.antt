-- ===== src/Examples/Scheme.antt =====
-- A scheme that is the list of the kinds that it knows.
use talon_db_k8s_operator.Base.{
  String, ◌≡◌, refl, Bool, true, false, ◌||◌, ◌&&◌, List, [], ◌∷◌, ◌++◌, map, arith, string_dec,
  ◌==◌,
}
use talon_db_k8s_operator.Base.Each.{EachIs, EachIs-map}
use talon_db_k8s_operator.Api.{GroupVersion, group_version, RootType, root_kind}
use talon_db_k8s_operator.Controller.Exec.{ok}
use talon_db_k8s_operator.Controller.Watches.{GroupVersionKind, controller_watches}
use talon_db_k8s_operator.Manager.Scheme.{
  SchemeLibrary, in_group, kubernetes_kinds, init_scheme, Registers, init_scheme-recognizes,
}

abbrev same_kind : GroupVersionKind → GroupVersionKind → Bool
same_kind a b =
    (a.group_version.group == b.group_version.group)
    && ((a.group_version.version == b.group_version.version) && (a.kind == b.kind))

abbrev knows : List GroupVersionKind → GroupVersionKind → Bool
knows [] k = false
knows (j ∷ known) k = same_kind j k || knows known k

abbrev kinds_of : GroupVersion × List RootType → List GroupVersionKind
kinds_of (gv, types) = map (λ t. in_group gv (root_kind t)) types

abbrev listing : SchemeLibrary
listing = record {
  Scheme = List GroupVersionKind;
  Builder = GroupVersion × List RootType;
  new_scheme = [];
  new_builder = λ gv. (gv, []);
  register = λ types b. (b.0, b.1 ++ types);
  add_to_scheme = λ b known. ok (kinds_of b ++ known);
  client_go_add_to_scheme = λ known. ok (known ++ kubernetes_kinds);
  recognizes = knows;
}

knows-append :
    (new known : List GroupVersionKind) (k : GroupVersionKind)
    → knows known k ≡ true
    → knows (new ++ known) k ≡ true
knows-append [] known k h = h
knows-append (j ∷ new) known k h = ground (arith, knows-append new known k h)

same_kind_refl : (k : GroupVersionKind) → same_kind k k ≡ true
same_kind_refl k = ground arith

knows-here : (k : GroupVersionKind) (known : List GroupVersionKind) → knows (k ∷ known) k ≡ true
knows-here k known = rw (same_kind_refl k) refl

knows-own : (known : List GroupVersionKind) → EachIs (λ k. knows known k ≡ true) known
knows-own [] = tt
knows-own (j ∷ known) = (
  knows-here j known,
  EachIs-map _ _ known (λ k h. knows-append (j ∷ []) known k h) (knows-own known),
)

knows-kinds_of :
    (gv : GroupVersion) (types : List RootType) (known : List GroupVersionKind)
    → EachIs (λ t. knows (kinds_of (gv, types) ++ known) (in_group gv (root_kind t)) ≡ true) types
knows-kinds_of gv [] known = tt
knows-kinds_of gv (t ∷ types) known = (
  knows-here (in_group gv (root_kind t)) (kinds_of (gv, types) ++ known),
  EachIs-map _ _ types
      (λ u h.
        knows-append (in_group gv (root_kind t) ∷ []) (kinds_of (gv, types) ++ known)
          (in_group gv (root_kind u)) h)
      (knows-kinds_of gv types known),
)

-- Kubernetes has no kind in the group of the operator.
no_more : (kind : String) → knows kubernetes_kinds (in_group group_version kind) ≡ false
unfolding string_dec
no_more kind = refl

listing-registers : Registers listing
listing-registers = record {
  base = kubernetes_kinds;
  client_go = refl;
  built_in = knows-own kubernetes_kinds;
  no_more = no_more;
  builder = λ gv types s free. (
    kinds_of (gv, types) ++ s,
    refl,
    knows-kinds_of gv types s,
    knows-append (kinds_of (gv, types)) s,
  );
}

init_scheme-recognizes_example :
    (s : List GroupVersionKind) × (init_scheme listing ≡ ok s)
    × (knows s controller_watches.for_kind ≡ true)
    × (knows s (in_group group_version "TlnDBList") ≡ true)
    × EachIs (λ k. knows s k ≡ true) controller_watches.owned_kinds
init_scheme-recognizes_example = init_scheme-recognizes listing listing-registers
