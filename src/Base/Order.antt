-- ===== src/Base/Order.antt =====
-- The order of texts, which is the order of Go's strings.
use Prim.Native.Nat.{Ordering}
use Prim.Native.String.compare
use Prim.Native.String.{String, [], ◌∷◌, compare}
use talon_db_k8s_operator.Base.{◌≡◌, arith}

pub compare_flip : (s t : String) → compare s t ≡ Ordering.gt → compare t s ≡ Ordering.lt
compare_flip [] [] h = ground (arith, h, compare.nil-nil)
compare_flip [] (d ∷ t) h = ground (arith, h, compare.nil-cons d t)
compare_flip (c ∷ s) [] h = compare.nil-cons c s
compare_flip (c ∷ s) (d ∷ t) h =
    ground (arith, compare_flip s t, compare.cons-cons c d s t, compare.cons-cons d c t s)

pub compare_trans :
    (s t u : String)
    → compare s t ≡ Ordering.lt
    → compare t u ≡ Ordering.lt
    → compare s u ≡ Ordering.lt
compare_trans [] [] u h k = ground (arith, compare.nil-nil)
compare_trans [] (d ∷ t) [] h k = ground (arith, compare.cons-nil d t)
compare_trans [] (d ∷ t) (e ∷ u) h k = compare.nil-cons e u
compare_trans (c ∷ s) [] u h k = ground (arith, compare.cons-nil c s)
compare_trans (c ∷ s) (d ∷ t) [] h k = ground (arith, compare.cons-nil d t)
compare_trans (c ∷ s) (d ∷ t) (e ∷ u) h k = ground (
  arith,
  compare_trans s t u,
  compare.cons-cons c d s t,
  compare.cons-cons d e t u,
  compare.cons-cons c e s u,
)

pub compare_unflip : (s t : String) → compare s t ≡ Ordering.lt → compare t s ≡ Ordering.gt
compare_unflip [] [] h = ground (arith, h, compare.nil-nil)
compare_unflip [] (d ∷ t) h = compare.cons-nil d t
compare_unflip (c ∷ s) [] h = ground (arith, h, compare.cons-nil c s)
compare_unflip (c ∷ s) (d ∷ t) h =
    ground (arith, compare_unflip s t, compare.cons-cons c d s t, compare.cons-cons d c t s)
