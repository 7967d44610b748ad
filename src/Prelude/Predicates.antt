-- ===== src/Prelude/Predicates.antt =====
-- A predicate that holds of every item of a list, by recursion, so that tactics read it.
use mathlib.Core.Path.{◌≡◌, subst}
use mathlib.Core.List.{List, [], ◌∷◌, ◌++◌}

abbrev pub All {ℓ κ} : {A : Type ℓ} → (A → Type κ) → List A → Type κ
All P [] = Unit
All P (x ∷ xs) = P x × All P xs

pub All-append {ℓ κ} :
    {A : Type ℓ} (P : A → Type κ) (xs ys : List A) → All P xs → All P ys → All P (xs ++ ys)
All-append P [] ys h k = k
All-append P (x ∷ xs) ys h k = (h.0, All-append P xs ys h.1 k)

-- Where an item stands in a list.
pub data Among {ℓ} {A : Type ℓ} (a : A) : List A → Type ℓ where
  at_front : {x : A} {xs : List A} → x ≡ a → Among a (x ∷ xs)
  further : {x : A} {xs : List A} → Among a xs → Among a (x ∷ xs)

pub All-Among {ℓ κ} :
    {A : Type ℓ} (P : A → Type κ) {a : A} {xs : List A} → All P xs → Among a xs → P a
All-Among P h (at_front e) = subst P e h.0
All-Among P h (further later) = All-Among P h.1 later
