-- ===== src/Tags/Lists.antt =====
-- The tags of an index as a list, and the first page of a list (tag.go).
use olareg.Shared.{
  ℕ, zero, suc, ◌-◌, ◌≤◌, ◌<◌, String, List, [], ◌∷◌, ◌++◌, none, some, true, false, ◌&&◌, not, ◌≡◌,
  ◌≢◌, ◌↔◌, ◌⊎◌, inl, inr, refl, ap, ◌∙◌, ◌==◌, ==_iff, string_comparable, ltb, arith,
  if◌then◌else◌, Bool-cases,
}
use olareg.Shared.Counting.{any-count}
use olareg.Shared.Int.{ℤ, pos, negsuc}
use olareg.Shared.Slices.{length, get_elem?, take, drop, any, count_p}
use olareg.Shared.Members.{contains}
use olareg.Shared.Texts.{lt_text}
use olareg.Shared.Sorting.{sort_texts, keep_after, IsDistinct, insert_text}
use olareg.Types.Descriptor.{Descriptor, annotation_val, annot_ref_name}
use olareg.Types.Layout.{has_tag}
use olareg.Tags.{TagQuery, tags_after, cut}

module _ {D : Type 0} where
  -- The tags of an index, in its order.
  abbrev pub tag_names : List (Descriptor D) → List String
  tag_names [] = []
  tag_names (d ∷ ds) =
      let rest = tag_names ds in
      if annotation_val d annot_ref_name == "" then rest else annotation_val d annot_ref_name ∷ rest

  pub tags_after-keep_after :
      (last : String) (ms : List (Descriptor D))
      → tags_after last ms ≡ keep_after last (tag_names ms)
  unfolding tags_after keep_after
  tags_after-keep_after last [] = refl
  tags_after-keep_after last (d ∷ ds) = ground (arith, tags_after-keep_after last ds)

  pub contains-tag_names :
      (t : String) (ms : List (Descriptor D))
      → contains (tag_names ms) t ≡ (not (t == "") && any (has_tag t) ms)
  unfolding any
  contains-tag_names t [] = ground arith
  contains-tag_names t (d ∷ ds) = ground (
    arith,
    contains-tag_names t ds,
    ==_iff (annotation_val d annot_ref_name) t,
    ==_iff (annotation_val d annot_ref_name) "",
    ==_iff t "",
  )

  pub tag_names-IsDistinct :
      (ms : List (Descriptor D))
      → ((t : String) → t ≢ "" → count_p (has_tag t) ms ≤ 1)
      → IsDistinct (tag_names ms)
  unfolding count_p
  tag_names-IsDistinct [] h = tt
  tag_names-IsDistinct (d ∷ ds) h =
      let t = annotation_val d annot_ref_name in
      let rest : IsDistinct (tag_names ds) =
        tag_names-IsDistinct ds (λ u g. omega (arith, h u g)) in
      elim (Bool-cases (t == "")) [
        | inl q ↦ ground arith
        | inr q ↦
            let once : contains (tag_names ds) t ≡ false = ground (
              arith,
              h t (λ g. ground (arith, ==_iff t "")),
              any-count (has_tag t) ds,
              contains-tag_names t ds,
              ==_iff t t,
            ) in
            ground arith
      ]

  pub length-tags_after :
      (last : String) (ms : List (Descriptor D)) → length (tags_after last ms) ≤ length ms
  unfolding tags_after
  length-tags_after last [] = omega arith
  length-tags_after last (d ∷ ds) = ground (arith, length-tags_after last ds)

length-insert : (x : String) (xs : List String) → length (insert_text x xs) ≡ suc (length xs)
unfolding insert_text
length-insert x [] = refl
length-insert x (y ∷ ys) = ground (arith, length-insert x ys)

pub length-sort : (xs : List String) → length (sort_texts xs) ≡ length xs
unfolding sort_texts
length-sort [] = refl
length-sort (x ∷ xs) = length-insert x (sort_texts xs) ∙ ap suc (length-sort xs)

pub get_elem?-keep_after :
    (last t : String) (xs : List String) (i : ℕ)
    → get_elem? (keep_after last xs) i ≡ some t
    → lt_text last t ≡ true
unfolding keep_after get_elem?
get_elem?-keep_after last t [] i h = ground arith
get_elem?-keep_after last t (x ∷ xs) zero h = ground (arith, get_elem?-keep_after last t xs zero)
get_elem?-keep_after last t (x ∷ xs) (suc i) h =
    ground (arith, get_elem?-keep_after last t xs i, get_elem?-keep_after last t xs (suc i))

pub take-drop : (n : ℕ) (xs : List String) → take n xs ++ drop n xs ≡ xs
take-drop zero xs = refl
take-drop (suc n) [] = refl
take-drop (suc n) (x ∷ xs) = ap (λ ys. x ∷ ys) (take-drop n xs)

pub length-drop : (n : ℕ) (xs : List String) → length (drop n xs) ≡ length xs - n
length-drop zero xs = omega arith
length-drop (suc n) [] = omega arith
length-drop (suc n) (x ∷ xs) = omega (arith, length-drop n xs)

length-take : (n : ℕ) (xs : List String) → n ≤ length xs → length (take n xs) ≡ n
length-take zero xs h = refl
length-take (suc n) [] h = omega arith
length-take (suc n) (x ∷ xs) h = omega (arith, length-take n xs)

-- The last element of a page.
get_elem?-take :
    (k : ℕ) (xs : List String)
    → k < length xs
    → (t : String) × ((get_elem? (take (suc k) xs) k ≡ some t) × (get_elem? xs k ≡ some t))
unfolding get_elem?
get_elem?-take k [] h = ground arith
get_elem?-take zero (x ∷ xs) h = (x, (refl, refl))
get_elem?-take (suc k) (x ∷ xs) h = get_elem?-take k xs (omega arith)

-- A page of a list that has more ends with some text, which is the link's.
pub cut-more :
    (query : TagQuery) (k : ℕ) (xs : List String)
    → suc k < length xs
    → (t : String) × ((get_elem? xs k ≡ some t)
        × (cut query (pos (suc k)) xs ≡ some (take (suc k) xs, some (record query { last = t }))))
unfolding cut
cut-more query k xs h =
    let r = get_elem?-take k xs (omega arith) in
    (r.0, (r.1.1, ground (arith, length-take (suc k) xs, r.1.0)))

pub cut-all :
    (query : TagQuery) (k : ℕ) (xs : List String)
    → ltb (suc k) (length xs) ≡ false
    → cut query (pos (suc k)) xs ≡ some (xs, none)
unfolding cut
cut-all query k xs h = ground arith

pub cut-panics :
    (query : TagQuery) (z : ℤ) (xs : List String)
    → (cut query z xs ≡ none) ↔ (((m : ℕ) × (z ≡ negsuc m)) ⊎ ((z ≡ pos 0) × (0 < length xs)))
unfolding cut get_elem?
cut-panics query (negsuc m) xs = (λ h. inl (m, refl), λ h. refl)
cut-panics query (pos zero) [] = ground arith
cut-panics query (pos zero) (x ∷ xs) = (λ h. inr (refl, omega arith), λ h. ground arith)
cut-panics query (pos (suc k)) xs = elim (Bool-cases (ltb (suc k) (length xs))) [
  | inl g ↦
      let more : suc k < length xs = ground arith in
      let r = cut-more query k xs more in ground (arith, r.1.1)
  | inr g ↦ ground (arith, cut-all query k xs g)
]
