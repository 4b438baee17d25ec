-- ===== src/Shared/Members.antt =====
-- `slices.Contains`, and how many of some values a list does not hold.
use Prim.Native.Nat.{ℕ, ◌+◌, ◌≤◌}
use mathlib.Core.Path.{◌≡◌, ap}
use mathlib.Core.Logic.{inl, inr}
use mathlib.Core.Bool.{Bool, true, false, not, ◌||◌}
use mathlib.Core.List.{List, [], ◌∷◌, ◌++◌}
use native.Mathlib.Omega.{arith}
use olareg.Shared.Tests.{Comparable, ◌==◌, ==_iff, Bool-cases}
use olareg.Shared.Slices.{any, count_p}
use olareg.Shared.Counting.{count_p_mono}

module _ {ℓ} {A : Type ℓ} ⦃e : Comparable A⦄ where
  abbrev pub contains : List A → A → Bool
  contains xs v = any (λ x. x == v) xs

  -- How many of the values `ds` are not in `seen`.
  abbrev pub unseen : List A → List A → ℕ
  unseen ds seen = count_p (λ d. not (contains seen d)) ds

  pub unseen_mono :
      (ds seen more : List A)
      → ((j : A) → contains seen j ≡ true → contains more j ≡ true)
      → unseen ds more ≤ unseen ds seen
  unseen_mono ds seen more h = count_p_mono _ _ ds (λ d g. ground (arith, h d))

  -- A value that is only in the longer list makes them fewer.
  pub unseen-lt :
      (ds seen more : List A) (d : A)
      → ((j : A) → contains seen j ≡ true → contains more j ≡ true)
      → contains ds d ≡ true
      → contains seen d ≡ false
      → contains more d ≡ true
      → unseen ds more + 1 ≤ unseen ds seen
  unfolding any count_p
  unseen-lt [] seen more d h p q r = ground arith
  unseen-lt (x ∷ ds) seen more d h p q r = elim (Bool-cases (x == d)) [
    | inl s ↦
        let same = (==_iff x d).0 s in
        ground (
          arith,
          ap (λ y. contains seen y) same,
          ap (λ y. contains more y) same,
          unseen_mono ds seen more h,
        )
    | inr s ↦ ground (arith, ==_iff x d, h x, unseen-lt ds seen more d h)
  ]

  pub contains-append :
      (xs : List A) (v j : A) → contains (xs ++ v ∷ []) j ≡ (contains xs j || v == j)
  unfolding any
  contains-append [] v j = ground arith
  contains-append (x ∷ xs) v j = ground (arith, contains-append xs v j)
