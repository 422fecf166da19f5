-- ===== src/Base/Each.antt =====
-- A property of each element of a list.
use talon_db_k8s_operator.Base.{List, [], ◌∷◌, ◌++◌}

abbrev pub EachIs {ℓ κ} : {A : Type ℓ} → (A → Type κ) → List A → Type κ
EachIs P [] = Unit
EachIs P (x ∷ xs) = P x × EachIs P xs

pub EachIs-append {ℓ κ} :
    {A : Type ℓ} (P : A → Type κ) (xs ys : List A) → EachIs P xs → EachIs P ys → EachIs P (xs ++ ys)
EachIs-append P [] ys hx hy = hy
EachIs-append P (x ∷ xs) ys (h, hx) hy = (h, EachIs-append P xs ys hx hy)

pub EachIs-append-inverse {ℓ κ} :
    {A : Type ℓ} (P : A → Type κ) (xs ys : List A) → EachIs P (xs ++ ys) → EachIs P xs × EachIs P ys
EachIs-append-inverse P [] ys h = (tt, h)
EachIs-append-inverse P (x ∷ xs) ys (h, hs) =
    let (front, back) = EachIs-append-inverse P xs ys hs in ((h, front), back)

pub EachIs-map {ℓ κ μ} :
    {A : Type ℓ} (P : A → Type κ) (Q : A → Type μ) (xs : List A)
    → ((x : A) → P x → Q x)
    → EachIs P xs
    → EachIs Q xs
EachIs-map P Q [] f h = tt
EachIs-map P Q (x ∷ xs) f (h, hs) = (f x h, EachIs-map P Q xs f hs)
