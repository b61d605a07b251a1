-- ===== src/Prelude/Sublists.antt =====
-- A list with some entries left out: what must have happened, in that order, among other events.
use mathlib.Core.List.{List, [], ◌∷◌}

pub data Sub {ℓ} {A : Type ℓ} : List A → List A → Type ℓ where
  nil : {ys : List A} → Sub [] ys
  keep : (x : A) {xs ys : List A} → Sub xs ys → Sub (x ∷ xs) (x ∷ ys)
  skip : (y : A) {xs ys : List A} → Sub xs ys → Sub xs (y ∷ ys)

pub Sub-trans {ℓ} : {A : Type ℓ} {xs ys zs : List A} → Sub xs ys → Sub ys zs → Sub xs zs
Sub-trans p (skip y q) = skip y (Sub-trans p q)
Sub-trans nil q = nil
Sub-trans (keep x p) (keep _ q) = keep x (Sub-trans p q)
Sub-trans (skip y p) (keep _ q) = skip y (Sub-trans p q)
