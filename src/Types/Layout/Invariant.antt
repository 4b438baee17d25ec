-- ===== src/Types/Layout/Invariant.antt =====
-- The step of `AddDesc` that places an entry keeps the invariant of the index.
use olareg.Shared.{
  ℕ, ◌+◌, ◌≤◌, ◌<◌, String, List, [], ◌∷◌, ◌++◌, some, true, false, ◌≡◌, ◌≢◌, refl, sym, ◌∙◌,
  Comparable, ◌==◌, ==_iff, string_comparable, arith, Bool-cases, inl, inr, to_ℕ,
}
use olareg.Shared.Slices.{get_elem?, set, count_p}
use olareg.Shared.Counting.{
  count_p-set, count_p-append, count_p-single, count_p_mono, count_p_or, get_elem?-count,
}
use olareg.Types.Descriptor.{Descriptor, annotation_val, annot_ref_name}
use olareg.Types.Layout.{has_tag, annotations_empty, compatible}
use olareg.Types.Layout.Lemmas.{annotations_empty-tag}
use olareg.Types.Layout.Steps.{stale}
use olareg.Types.Layout.Place.{Placed}
use olareg.Types.Layout.WellFormed.{bare, named, WellFormed, to_ℕ-le}

module _ {D : Type 0} ⦃e : Comparable D⦄ where
  module _ (tag : String) (d : Descriptor D) (ms : List (Descriptor D))
      (named_so : annotation_val d annot_ref_name ≡ tag)
      (fresh : tag ≢ "" → count_p (stale tag d.digest) ms ≡ 0) (v : WellFormed ms) where
    module _ (none_fit : count_p (compatible tag d.digest) ms ≡ 0) where
      appended_unique : (t : String) → t ≢ "" → count_p (has_tag t) (ms ++ d ∷ []) ≤ 1
      unfolding compatible
      appended_unique t h =
          rw (count_p-append, count_p-single)
            (elim (Bool-cases (has_tag t d)) [
              | inr n ↦ rw n (omega (arith, v.unique t h))
              | inl y ↦
                  let same : t ≡ tag =
                    sym ((==_iff (annotation_val d annot_ref_name) t).0 y) ∙ named_so in
                  let none_tagged : count_p (has_tag t) ms
                      ≤ count_p (stale tag d.digest) ms + count_p (compatible tag d.digest) ms =
                    rw same (
                      count_p_or (has_tag tag) (stale tag d.digest) (compatible tag d.digest) ms
                        (λ c p. ground arith)) in
                  rw y (omega (arith, none_tagged, fresh (λ z. h (same ∙ z)), none_fit))
            ])

      appended_lone :
          (q : D)
          → 0 < count_p (bare q) (ms ++ d ∷ [])
          → count_p (bare q) (ms ++ d ∷ []) + count_p (named q) (ms ++ d ∷ []) ≤ 1
      unfolding compatible
      appended_lone q h =
          let b : count_p (bare q) (ms ++ d ∷ []) ≡ count_p (bare q) ms + to_ℕ (bare q d) =
            rw (count_p-append, count_p-single) refl in
          let n : count_p (named q) (ms ++ d ∷ []) ≡ count_p (named q) ms + to_ℕ (named q d) =
            rw (count_p-append, count_p-single) refl in
          elim (Bool-cases (d.digest == q)) [
            | inr t ↦ ground (arith, b, n, v.lone q)
            | inl t ↦
                let none_bare : count_p (bare q) ms ≤ count_p (compatible tag d.digest) ms =
                  count_p_mono (bare q) (compatible tag d.digest) ms (λ c p.
                    ground
                      (arith, ==_iff c.digest q, ==_iff d.digest q, ==_iff c.digest d.digest)) in
                elim (Bool-cases (tag == "")) [
                  | inr z ↦
                      let not_bare : bare q d ≡ false =
                        ground (arith, annotations_empty-tag d, ==_iff tag "") in
                      absurd (omega (arith, rw not_bare at b, none_bare, none_fit))
                  | inl z ↦
                      let none_named : count_p (named q) ms ≤ count_p (compatible tag d.digest) ms =
                        count_p_mono (named q) (compatible tag d.digest) ms (λ c p. ground (
                          arith,
                          ==_iff c.digest q,
                          ==_iff d.digest q,
                          ==_iff c.digest d.digest,
                        )) in
                      let not_named : named q d ≡ false =
                        ground
                          (arith, ==_iff tag "", ==_iff (annotation_val d annot_ref_name) "") in
                      omega (
                        arith,
                        b,
                        rw not_named at n,
                        none_bare,
                        none_named,
                        none_fit,
                        to_ℕ-le (bare q d),
                      )
                ]
          ]

    module _ (i : ℕ) (cur : Descriptor D) (at : get_elem? ms i ≡ some cur)
        (same : (cur.digest == d.digest) ≡ true) (empty : annotations_empty cur ≡ true)
        (some_tag : (tag == "") ≡ false) where
      -- The entry that is replaced is the only one of its digest without other annotations.
      replaced_alone : (count_p (bare d.digest) ms ≡ 1) × (count_p (named d.digest) ms ≡ 0)
      replaced_alone = ground (arith, v.lone d.digest, get_elem?-count (bare d.digest) ms i at)

      replaced_unique : (t : String) → t ≢ "" → count_p (has_tag t) (set ms i d) ≤ 1
      replaced_unique t h =
          let c = count_p-set (has_tag t) ms i d at in
          elim (Bool-cases (has_tag t d)) [
            | inr n ↦ omega (arith, rw n at c, v.unique t h)
            | inl y ↦
                let eq : t ≡ tag =
                  sym ((==_iff (annotation_val d annot_ref_name) t).0 y) ∙ named_so in
                let none_tagged : count_p (has_tag t) ms
                    ≤ count_p (stale tag d.digest) ms + count_p (named d.digest) ms =
                  rw eq (
                    count_p_or (has_tag tag) (stale tag d.digest) (named d.digest) ms (λ x p.
                      ground (
                        arith,
                        ==_iff (annotation_val x annot_ref_name) tag,
                        ==_iff (annotation_val x annot_ref_name) "",
                        ==_iff tag "",
                      ))) in
                omega (arith, rw y at c, none_tagged, fresh (λ z. h (eq ∙ z)), replaced_alone)
          ]

      replaced_lone :
          (q : D)
          → 0 < count_p (bare q) (set ms i d)
          → count_p (bare q) (set ms i d) + count_p (named q) (set ms i d) ≤ 1
      replaced_lone q h =
          let b = count_p-set (bare q) ms i d at in
          let n = count_p-set (named q) ms i d at in
          elim (Bool-cases (d.digest == q)) [
            | inr t ↦ ground (arith, b, n, v.lone q, ==_iff cur.digest d.digest)
            | inl t ↦
                let eq : d.digest ≡ q = (==_iff d.digest q).0 t in
                let was_bare : bare q cur ≡ true = ground (arith, ==_iff cur.digest d.digest) in
                let not_bare : bare q d ≡ false =
                  ground (arith, annotations_empty-tag d, ==_iff tag "") in
                let one : count_p (bare q) ms ≡ 1 = rw eq at (replaced_alone.0) in
                absurd (omega (arith, rw (not_bare, was_bare) at b, one))
          ]

    pub Placed-WellFormed : (ms' : List (Descriptor D)) → Placed tag d ms ms' → WellFormed ms'
    Placed-WellFormed ms' (Placed.appended none_fit a) =
        rw a (record { unique = appended_unique none_fit; lone = appended_lone none_fit })
    Placed-WellFormed ms' (Placed.replaced i cur at same empty t a) = rw a (record {
      unique = replaced_unique i cur at same empty t;
      lone = replaced_lone i cur at same empty t;
    })
    Placed-WellFormed ms' (Placed.kept _ _ _ _ _ a) = rw a v
