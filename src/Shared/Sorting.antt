-- ===== src/Shared/Sorting.antt =====
-- `sort.Strings`, and lists of texts in ascending order.
use Prim.Native.Nat.{ℕ, zero, suc}
use Prim.Native.String.{String}
use mathlib.Core.Path.{◌≡◌, refl, ◌∙◌}
use mathlib.Core.Logic.{inl, inr}
use mathlib.Core.Bool.{true, false, ◌||◌, ◌&&◌}
use mathlib.Core.Option.{some}
use mathlib.Core.List.{List, [], ◌∷◌}
use native.Mathlib.Omega.{arith}
use olareg.Shared.Tests.{if◌then◌else◌, Bool-cases, ◌==◌, ==_iff, string_comparable}
use olareg.Shared.Slices.{any, get_elem?, drop}
use olareg.Shared.Members.{contains}
use olareg.Shared.Texts.{lt_text, lt_text_trans, lt_text_irrefl, lt_text_eq}

unfoldable pub insert_text : String → List String → List String
insert_text x [] = x ∷ []
insert_text x (y ∷ ys) = if lt_text y x then y ∷ insert_text x ys else x ∷ y ∷ ys

unfoldable pub sort_texts : List String → List String
sort_texts [] = []
sort_texts (x ∷ xs) = insert_text x (sort_texts xs)

-- The texts that stand after `last`.
unfoldable pub keep_after : String → List String → List String
keep_after last [] = []
keep_after last (x ∷ xs) = if lt_text last x then x ∷ keep_after last xs else keep_after last xs

abbrev pub AllAfter : String → List String → Type 0
AllAfter x [] = Unit
AllAfter x (y ∷ ys) = (lt_text x y ≡ true) × AllAfter x ys

abbrev pub IsAscending : List String → Type 0
IsAscending [] = Unit
IsAscending (x ∷ xs) = AllAfter x xs × IsAscending xs

-- No text stands twice.
abbrev pub IsDistinct : List String → Type 0
IsDistinct [] = Unit
IsDistinct (x ∷ xs) = (contains xs x ≡ false) × IsDistinct xs

lt_text_le : (s t u : String) → lt_text s t ≡ true → lt_text u t ≡ false → lt_text s u ≡ true
lt_text_le s t u h k = elim (Bool-cases (lt_text t u)) [
  | inl q ↦ lt_text_trans s t u h q
  | inr q ↦ rw (← lt_text_eq t u q k) h
]

keep_after-insert :
    (last x : String) (xs : List String)
    → keep_after last (insert_text x xs)
      ≡ (if lt_text last x then insert_text x (keep_after last xs) else keep_after last xs)
unfolding keep_after insert_text
keep_after-insert last x [] = ground arith
keep_after-insert last x (y ∷ ys) = ground (arith, keep_after-insert last x ys, lt_text_le last x y)

pub keep_after-sort :
    (last : String) (xs : List String)
    → keep_after last (sort_texts xs) ≡ sort_texts (keep_after last xs)
unfolding sort_texts keep_after
keep_after-sort last [] = refl
keep_after-sort last (x ∷ xs) =
    ground (arith, keep_after-insert last x (sort_texts xs), keep_after-sort last xs)

-- Keeping what is after a text and then after a later one is keeping what is after the later one.
pub keep_after-keep_after :
    (last later : String) (xs : List String)
    → lt_text last later ≡ true
    → keep_after later (keep_after last xs) ≡ keep_after later xs
unfolding keep_after
keep_after-keep_after last later [] h = refl
keep_after-keep_after last later (x ∷ xs) h =
    ground (arith, keep_after-keep_after last later xs, lt_text_trans last later x h)

keep_after_all : (x : String) (xs : List String) → AllAfter x xs → keep_after x xs ≡ xs
unfolding keep_after
keep_after_all x [] h = refl
keep_after_all x (y ∷ ys) h = ground (arith, keep_after_all x ys)

AllAfter-get_elem? :
    (x v : String) (xs : List String) (i : ℕ)
    → AllAfter x xs
    → get_elem? xs i ≡ some v
    → lt_text x v ≡ true
unfolding get_elem?
AllAfter-get_elem? x v [] i h q = ground arith
AllAfter-get_elem? x v (y ∷ ys) zero h q = ground arith
AllAfter-get_elem? x v (y ∷ ys) (suc i) h q = AllAfter-get_elem? x v ys i h.1 q

-- In an ascending list, what stands after an element is the rest of the list.
pub keep_after-drop :
    (xs : List String) (i : ℕ) (v : String)
    → IsAscending xs
    → get_elem? xs i ≡ some v
    → keep_after v xs ≡ drop (suc i) xs
unfolding keep_after get_elem?
keep_after-drop [] i v h q = refl
keep_after-drop (x ∷ xs) zero v h q = ground (arith, lt_text_irrefl x, keep_after_all x xs)
keep_after-drop (x ∷ xs) (suc i) v h q = ground (
  arith,
  keep_after-drop xs i v,
  AllAfter-get_elem? x v xs i,
  lt_text_trans x v x,
  lt_text_irrefl x,
)

AllAfter-insert :
    (x v : String) (xs : List String)
    → lt_text x v ≡ true
    → AllAfter x xs
    → AllAfter x (insert_text v xs)
unfolding insert_text
AllAfter-insert x v [] h k = (h, tt)
AllAfter-insert x v (y ∷ ys) h k = ground (arith, AllAfter-insert x v ys h)

AllAfter-trans :
    (x y : String) (ys : List String) → lt_text x y ≡ true → AllAfter y ys → AllAfter x ys
AllAfter-trans x y [] h k = tt
AllAfter-trans x y (z ∷ ys) h k = (lt_text_trans x y z h k.0, AllAfter-trans x y ys h k.1)

insert-IsAscending :
    (x : String) (xs : List String)
    → contains xs x ≡ false
    → IsAscending xs
    → IsAscending (insert_text x xs)
unfolding insert_text any
insert-IsAscending x [] n h = (tt, tt)
insert-IsAscending x (y ∷ ys) n h = ground (
  arith,
  insert-IsAscending x ys,
  AllAfter-insert y x ys,
  AllAfter-trans x y ys,
  lt_text_eq x y,
  ==_iff y x,
)

contains-insert :
    (x j : String) (xs : List String) → contains (insert_text x xs) j ≡ (x == j || contains xs j)
unfolding insert_text any
contains-insert x j [] = refl
contains-insert x j (y ∷ ys) = ground (arith, contains-insert x j ys)

pub contains-sort : (xs : List String) (j : String) → contains (sort_texts xs) j ≡ contains xs j
unfolding sort_texts any
contains-sort [] j = refl
contains-sort (x ∷ xs) j = ground (arith, contains-insert x j (sort_texts xs), contains-sort xs j)

pub sort-IsAscending : (xs : List String) → IsDistinct xs → IsAscending (sort_texts xs)
unfolding sort_texts
sort-IsAscending [] h = tt
sort-IsAscending (x ∷ xs) h =
    insert-IsAscending x (sort_texts xs) (contains-sort xs x ∙ h.0) (sort-IsAscending xs h.1)

pub contains-keep_after :
    (last j : String) (xs : List String)
    → contains (keep_after last xs) j ≡ (lt_text last j && contains xs j)
unfolding keep_after any
contains-keep_after last j [] = ground arith
contains-keep_after last j (x ∷ xs) = ground (arith, contains-keep_after last j xs, ==_iff x j)

pub keep_after-IsDistinct :
    (last : String) (xs : List String) → IsDistinct xs → IsDistinct (keep_after last xs)
unfolding keep_after
keep_after-IsDistinct last [] h = tt
keep_after-IsDistinct last (x ∷ xs) h =
    ground (arith, keep_after-IsDistinct last xs, contains-keep_after last x xs)
