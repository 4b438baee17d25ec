-- ===== src/Shared/Counting.antt =====
-- What the operations on slices do to the number of elements that pass a test, and to the first
-- of them.
use Prim.Native.Nat.{ℕ, zero, suc, ◌+◌, ◌≤◌, ◌<◌}
use mathlib.Core.Path.{◌≡◌, refl, sym, ap, ◌∙◌}
use mathlib.Core.Logic.{inl, inr}
use mathlib.Core.Bool.{Bool, true, false, ◌&&◌, ◌||◌, not}
use mathlib.Core.Option
use mathlib.Core.Option.{Option, none, some}
use mathlib.Core.List.{List, [], ◌∷◌, ◌++◌}
use native.Mathlib.Omega.{arith}
use olareg.Shared.Tests.{to_ℕ, Bool-cases, Option-cases}
use olareg.Shared.Slices.{
  length, get_elem?, set, delete_at, index_func, any, delete_func, find?, count_p, drop,
}

module _ {ℓ} {A : Type ℓ} (p : A → Bool) where
  -- What `IndexFunc` returns is the index of an element that passes, and of the first.
  pub index_func-found :
      (xs : List A) {i : ℕ}
      → index_func p xs ≡ some i
      → (x : A) × (get_elem? xs i ≡ some x) × (p x ≡ true) × (find? p xs ≡ some x)
  unfolding index_func get_elem? find?
  index_func-found [] h = ground arith
  index_func-found (x ∷ xs) {i = zero} h = (x, refl, ground arith, ground arith)
  index_func-found (x ∷ xs) {i = suc i} h =
      let (y, at, py, first) = index_func-found xs {i = i} (ground arith) in
      (y, at, py, ground arith)

  pub index_func-none : (xs : List A) → index_func p xs ≡ none → count_p p xs ≡ 0
  unfolding index_func count_p
  index_func-none [] h = refl
  index_func-none (x ∷ xs) h = ground (arith, index_func-none xs)

  pub any-count : (xs : List A) → any p xs ≡ true → 0 < count_p p xs
  unfolding any count_p
  any-count [] h = ground arith
  any-count (x ∷ xs) h = ground (arith, any-count xs)

  pub not-any-count : (xs : List A) → any p xs ≡ false → count_p p xs ≡ 0
  unfolding any count_p
  not-any-count [] h = refl
  not-any-count (x ∷ xs) h = ground (arith, not-any-count xs)

  pub count_p-delete_at :
      (xs : List A) (i : ℕ) {x : A}
      → get_elem? xs i ≡ some x
      → count_p p (delete_at xs i) + to_ℕ (p x) ≡ count_p p xs
  unfolding get_elem? delete_at count_p
  count_p-delete_at [] i h = ground arith
  count_p-delete_at (x ∷ xs) zero h = ground arith
  count_p-delete_at (x ∷ xs) (suc i) h = omega (arith, count_p-delete_at xs i h)

  pub count_p-set :
      (xs : List A) (i : ℕ) (v : A) {x : A}
      → get_elem? xs i ≡ some x
      → count_p p (set xs i v) + to_ℕ (p x) ≡ count_p p xs + to_ℕ (p v)
  unfolding get_elem? set count_p
  count_p-set [] i v h = ground arith
  count_p-set (x ∷ xs) zero v h = ground arith
  count_p-set (x ∷ xs) (suc i) v h = omega (arith, count_p-set xs i v h)

  pub count_p-append : (xs ys : List A) → count_p p (xs ++ ys) ≡ count_p p xs + count_p p ys
  unfolding count_p
  count_p-append [] ys = omega arith
  count_p-append (x ∷ xs) ys = omega (arith, count_p-append xs ys)

  pub count_p-single : (x : A) → count_p p (x ∷ []) ≡ to_ℕ (p x)
  unfolding count_p
  count_p-single x = omega arith

  pub count_p-delete_func :
      (q : A → Bool) (xs : List A)
      → count_p p (delete_func q xs) ≡ count_p (λ x. p x && not (q x)) xs
  unfolding count_p delete_func
  count_p-delete_func q [] = refl
  count_p-delete_func q (x ∷ xs) = ground (arith, count_p-delete_func q xs)

  pub count_p-drop_all : (xs : List A) → count_p p (drop (length xs) xs) ≡ 0
  unfolding count_p
  count_p-drop_all [] = refl
  count_p-drop_all (x ∷ xs) = count_p-drop_all xs

  pub find?-delete_at :
      (xs : List A) (i : ℕ) {x : A}
      → get_elem? xs i ≡ some x
      → p x ≡ false
      → find? p (delete_at xs i) ≡ find? p xs
  unfolding get_elem? delete_at find?
  find?-delete_at [] i h n = refl
  find?-delete_at (x ∷ xs) zero h n = ground arith
  find?-delete_at (x ∷ xs) (suc i) h n = rw (find?-delete_at xs i h n)

  pub find?-set :
      (xs : List A) (i : ℕ) (v : A) {x : A}
      → get_elem? xs i ≡ some x
      → p x ≡ false
      → p v ≡ false
      → find? p (set xs i v) ≡ find? p xs
  unfolding get_elem? set find?
  find?-set [] i v h n m = refl
  find?-set (x ∷ xs) zero v h n m = ground arith
  find?-set (x ∷ xs) (suc i) v h n m = rw (find?-set xs i v h n m)

  pub find?-append_one : (xs : List A) (v : A) → p v ≡ false → find? p (xs ++ v ∷ []) ≡ find? p xs
  unfolding find?
  find?-append_one [] v n = ground arith
  find?-append_one (x ∷ xs) v n = rw (find?-append_one xs v n)

  pub find?-delete_func :
      (q : A → Bool) (xs : List A)
      → ((x : A) → p x ≡ true → q x ≡ false)
      → find? p (delete_func q xs) ≡ find? p xs
  unfolding find? delete_func
  find?-delete_func q [] h = refl
  find?-delete_func q (x ∷ xs) h = ground (arith, find?-delete_func q xs h, h x)

  -- A test that some element passes finds one that passes.
  pub find?-some : (xs : List A) {x : A} → find? p xs ≡ some x → p x ≡ true
  unfolding find?
  find?-some [] h = ground arith
  find?-some (x ∷ xs) {x = y} h = ground (arith, find?-some xs {x = y})

  pub find?-count : (xs : List A) → 0 < count_p p xs → (x : A) × (find? p xs ≡ some x)
  unfolding find? count_p
  find?-count [] h = absurd (omega arith)
  find?-count (x ∷ xs) h = elim (Bool-cases (p x)) [
    | inl e ↦ (x, rw e)
    | inr e ↦ let (y, first) = find?-count xs (ground arith) in (y, rw e first)
  ]

  pub find?-none : (xs : List A) → count_p p xs ≡ 0 → find? p xs ≡ none
  unfolding find? count_p
  find?-none [] h = refl
  find?-none (x ∷ xs) h = ground (arith, find?-none xs)

  pub find?-get_elem? :
      (xs : List A) {x : A} → find? p xs ≡ some x → (i : ℕ) × (get_elem? xs i ≡ some x)
  unfolding find? get_elem?
  find?-get_elem? [] h = (0, h)
  find?-get_elem? (x ∷ xs) {x = y} h = elim (Bool-cases (p x)) [
    | inl t ↦ (0, ground arith)
    | inr t ↦ let (i, at) = find?-get_elem? xs {x = y} (ground arith) in (suc i, at)
  ]

  pub get_elem?-count :
      (xs : List A) (i : ℕ) {x : A} → get_elem? xs i ≡ some x → p x ≡ true → 0 < count_p p xs
  get_elem?-count xs i {x = x} at h = ground (arith, count_p-delete_at xs i {x = x})

  pub get_elem?-not :
      (xs : List A) (i : ℕ) {x : A} → get_elem? xs i ≡ some x → count_p p xs ≡ 0 → p x ≡ false
  get_elem?-not xs i {x = x} at h = ground (arith, count_p-delete_at xs i {x = x})

  -- The lookup by index is the first element that passes.
  pub index_func-find? : (xs : List A) → Option.bind (index_func p xs) (get_elem? xs) ≡ find? p xs
  unfolding index_func get_elem? find? Option.bind
  index_func-find? xs = elim (Option-cases (index_func p xs)) [
    | inl e ↦ rw e (sym (find?-none xs (index_func-none xs e)))
    | inr (i, e) ↦ let (x, at, _, first) = index_func-found xs e in rw e (at ∙ sym first)
  ]

module _ {ℓ} {A : Type ℓ} (p q : A → Bool) where
  pub count_p-delete_func-le : (xs : List A) → count_p p (delete_func q xs) ≤ count_p p xs
  unfolding count_p delete_func
  count_p-delete_func-le [] = omega arith
  count_p-delete_func-le (x ∷ xs) = ground (arith, count_p-delete_func-le xs)

module _ {ℓ} {A : Type ℓ} where
  pub count_p_mono :
      (p q : A → Bool) (xs : List A)
      → ((x : A) → p x ≡ true → q x ≡ true)
      → count_p p xs ≤ count_p q xs
  unfolding count_p
  count_p_mono p q [] h = omega arith
  count_p_mono p q (x ∷ xs) h = ground (arith, count_p_mono p q xs h, h x)

  pub count_p_or :
      (p q r : A → Bool) (xs : List A)
      → ((x : A) → p x ≡ true → (q x || r x) ≡ true)
      → count_p p xs ≤ count_p q xs + count_p r xs
  unfolding count_p
  count_p_or p q r [] h = omega arith
  count_p_or p q r (x ∷ xs) h = ground (arith, count_p_or p q r xs h, h x)

  pub count_p_congr :
      (p q : A → Bool) (xs : List A) → ((x : A) → p x ≡ q x) → count_p p xs ≡ count_p q xs
  unfolding count_p
  count_p_congr p q [] h = refl
  count_p_congr p q (x ∷ xs) h = rw (h x, count_p_congr p q xs h)

  pub length-set : (xs : List A) (i : ℕ) (v : A) → length (set xs i v) ≡ length xs
  unfolding set
  length-set [] i v = refl
  length-set (x ∷ xs) zero v = refl
  length-set (x ∷ xs) (suc i) v = ap suc (length-set xs i v)

  -- Past the index of a change nothing changes.
  pub drop-delete_at : (xs : List A) (i : ℕ) → drop i (delete_at xs i) ≡ drop (suc i) xs
  unfolding delete_at
  drop-delete_at [] zero = refl
  drop-delete_at [] (suc i) = refl
  drop-delete_at (x ∷ xs) zero = refl
  drop-delete_at (x ∷ xs) (suc i) = drop-delete_at xs i

  pub drop-set :
      (xs : List A) (i : ℕ) (v : A) {x : A}
      → get_elem? xs i ≡ some x
      → drop i (set xs i v) ≡ v ∷ drop (suc i) xs
  unfolding get_elem? set
  drop-set [] i v h = ground arith
  drop-set (x ∷ xs) zero v h = refl
  drop-set (x ∷ xs) (suc i) v h = drop-set xs i v h

  pub drop-get_elem? :
      (xs : List A) (i : ℕ) {x : A} → get_elem? xs i ≡ some x → drop i xs ≡ x ∷ drop (suc i) xs
  unfolding get_elem?
  drop-get_elem? [] i h = ground arith
  drop-get_elem? (x ∷ xs) zero h = ground arith
  drop-get_elem? (x ∷ xs) (suc i) h = drop-get_elem? xs i h

  pub drop_missing : (xs : List A) (i : ℕ) → get_elem? xs i ≡ none → drop i xs ≡ []
  unfolding get_elem?
  drop_missing [] zero h = refl
  drop_missing [] (suc i) h = refl
  drop_missing (x ∷ xs) zero h = ground arith
  drop_missing (x ∷ xs) (suc i) h = drop_missing xs i h
