-- ===== src/DeepCopy/Fresh.antt =====
-- Addresses that were free before a copy, each used for one cell.
use talon_db_k8s_operator.Base.{ℕ, suc, ◌≤◌, ◌<◌, ◌≢◌, List, [], ◌∷◌, ◌++◌, arith}
use talon_db_k8s_operator.Base.Each.{EachIs, EachIs-append, EachIs-map}

abbrev pub Within : ℕ → ℕ → ℕ → Type 0
Within n n' a = (n ≤ a) × (a < n')

abbrev pub Distinct : List ℕ → Type 0
Distinct [] = Unit
Distinct (a ∷ xs) = EachIs (λ b. a ≢ b) xs × Distinct xs

-- Between the states `n` and `n'` of the allocator, cells came into being at these addresses.
pub record Fresh (n n' : ℕ) (addresses : List ℕ) : Type 0 where
  pub grows : n ≤ n'
  pub within : EachIs (Within n n') addresses
  pub distinct : Distinct addresses

EachIs-Within-weaken :
    {n n' m m' : ℕ} (xs : List ℕ)
    → m ≤ n
    → n' ≤ m'
    → EachIs (Within n n') xs
    → EachIs (Within m m') xs
EachIs-Within-weaken xs below above h =
    EachIs-map _ _ xs (λ a w. (omega (arith, w.0), omega (arith, w.1))) h

Distinct-append :
    (n m n' : ℕ) (xs ys : List ℕ)
    → EachIs (Within n m) xs
    → EachIs (Within m n') ys
    → Distinct xs
    → Distinct ys
    → Distinct (xs ++ ys)
Distinct-append n m n' [] ys _ _ _ d = d
Distinct-append n m n' (a ∷ xs) ys (w, ws) h (apart, d) e = (
  EachIs-append _ xs ys apart (EachIs-map _ _ ys (λ b u. ground (arith, w.1, u.0)) h),
  Distinct-append n m n' xs ys ws h d e,
)

pub Fresh-[] : (n : ℕ) → Fresh n n []
Fresh-[] n = record { grows = omega arith; within = tt; distinct = tt }

pub Fresh-append :
    {n m n' : ℕ} {xs ys : List ℕ} → Fresh n m xs → Fresh m n' ys → Fresh n n' (xs ++ ys)
Fresh-append {n} {m} {n'} {xs} {ys} f g = record {
  grows = omega (arith, f.grows, g.grows);
  within =
      EachIs-append _ xs ys (EachIs-Within-weaken xs (omega arith) g.grows f.within)
        (EachIs-Within-weaken ys f.grows (omega arith) g.within);
  distinct = Distinct-append n m n' xs ys f.within g.within f.distinct g.distinct;
}

pub Fresh-cons : {n n' : ℕ} {xs : List ℕ} → Fresh (suc n) n' xs → Fresh n n' (n ∷ xs)
Fresh-cons {n} f =
    Fresh-append {xs = n ∷ []}
      (record {
        grows = omega arith;
        within = ((omega arith, omega arith), tt);
        distinct = (tt, tt);
      })
      f
