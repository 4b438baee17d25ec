-- ===== src/Shared/Elements.antt =====
-- Where an element of a changed slice comes from.
use Prim.Native.Nat.{ℕ, zero, suc}
use mathlib.Core.Path.{◌≡◌}
use mathlib.Core.Logic.{◌⊎◌, inl, inr}
use mathlib.Core.Option.{some}
use mathlib.Core.List.{List, [], ◌∷◌, ◌++◌}
use native.Mathlib.Omega.{arith}
use olareg.Shared.Slices.{get_elem?, set}

module _ {ℓ} {A : Type ℓ} where
  pub get_elem?-set :
      (xs : List A) (i j : ℕ) (v w : A)
      → get_elem? (set xs i v) j ≡ some w
      → (w ≡ v) ⊎ (get_elem? xs j ≡ some w)
  unfolding get_elem? set
  get_elem?-set [] i j v w h = inr h
  get_elem?-set (x ∷ xs) zero zero v w h = inl (ground arith)
  get_elem?-set (x ∷ xs) zero (suc j) v w h = inr h
  get_elem?-set (x ∷ xs) (suc i) zero v w h = inr h
  get_elem?-set (x ∷ xs) (suc i) (suc j) v w h = get_elem?-set xs i j v w h

  pub get_elem?-append :
      (xs : List A) (v w : A) (j : ℕ)
      → get_elem? (xs ++ v ∷ []) j ≡ some w
      → (w ≡ v) ⊎ (get_elem? xs j ≡ some w)
  unfolding get_elem?
  get_elem?-append [] v w zero h = inl (ground arith)
  get_elem?-append [] v w (suc j) h = inr h
  get_elem?-append (x ∷ xs) v w zero h = inr h
  get_elem?-append (x ∷ xs) v w (suc j) h = get_elem?-append xs v w j h
