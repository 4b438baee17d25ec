-- ===== src/Types/Layout/Preservation.antt =====
-- `AddDesc` and `RmDesc` keep the invariant of the index (types/layout.go).
use olareg.Shared.{
  ℕ, String, List, [], ◌∷◌, ◌++◌, some, Bool, false, ◌≡◌, ◌≢◌, ◌⊎◌, sym, subst, ◌∙◌, Comparable,
  ◌==◌, ==_iff, string_comparable, arith, Option-cases, Bool-cases, inl, inr,
}
use olareg.Shared.Slices.{get_elem?, any, index_func, set, delete_func}
use olareg.Shared.Counting.{
  index_func-found, count_p-set, count_p-append, count_p-single, count_p-delete_func-le,
}
use olareg.Types.Descriptor.{Descriptor, annotation_val, annot_ref_name, annot_referrer_subject}
use olareg.Types.Layout.{
  Clock, LayoutIndex, LayoutIndexOpt, apply_opts, has_tag, has_digest, move_children, untag, place,
  place_referrer, has_subject,
}
use olareg.Types.Layout.History.{stamp}
use olareg.Types.Layout.Lemmas.{annotations_empty-subject, stamp-tag, stamp-subject}
use olareg.Types.Layout.Operations.{insert_desc, add_desc, rm_tagged, rm_digest, rm_desc}
use olareg.Types.Layout.Untag.{untag_induction, move_children_induction}
use olareg.Types.Layout.Steps.{untag-stale}
use olareg.Types.Layout.Place.{place-Placed}
use olareg.Types.Layout.Removal.{Removed, target, beside, rm_tagged-Removed}
use olareg.Types.Layout.WellFormed.{
  bare, named, WellFormed, WellFormed-drop_tag, Moved-WellFormed, Untagged-WellFormed,
}
use olareg.Types.Layout.Invariant.{Placed-WellFormed}

module _ {D : Type 0} ⦃e : Comparable D⦄ where
  WellFormed-delete_func :
      (p : Descriptor D → Bool) (ms : List (Descriptor D))
      → WellFormed ms
      → WellFormed (delete_func p ms)
  WellFormed-delete_func p ms v = record {
    unique = λ t h. omega (arith, v.unique t h, count_p-delete_func-le (has_tag t) p ms);
    lone = λ q h. omega (
      arith,
      v.lone q (omega (arith, count_p-delete_func-le (bare q) p ms)),
      count_p-delete_func-le (bare q) p ms,
      count_p-delete_func-le (named q) p ms,
    );
  }

  -- A referrers response has no tag, and is not without annotations.
  module _ (subject : String) (d : Descriptor D)
      (own : annotation_val d annot_referrer_subject ≡ subject) (some_subject : subject ≢ "")
      (no_tag : annotation_val d annot_ref_name ≡ "") where
    not_bare : (q : D) → bare q d ≡ false
    not_bare q = ground (arith, annotations_empty-subject d)

    not_named : (q : D) → named q d ≡ false
    not_named q = ground (arith, ==_iff (annotation_val d annot_ref_name) "")

    not_tagged : (t : String) → t ≢ "" → has_tag t d ≡ false
    not_tagged t h = ground (arith, ==_iff (annotation_val d annot_ref_name) t)

    WellFormed-append : (ms : List (Descriptor D)) → WellFormed ms → WellFormed (ms ++ d ∷ [])
    WellFormed-append ms v = record {
      unique =
          λ t h. rw (count_p-append, count_p-single, not_tagged t h) (omega (arith, v.unique t h));
      lone = λ q.
          rw (count_p-append, count_p-single, not_bare q)
            (rw (count_p-append, count_p-single, not_named q)
              (λ h. omega (arith, v.lone q (omega arith))));
    }

    WellFormed-set :
        (ms : List (Descriptor D)) (i : ℕ) {x : Descriptor D}
        → get_elem? ms i ≡ some x
        → WellFormed ms
        → WellFormed (set ms i d)
    WellFormed-set ms i at v = record {
      unique = λ t h.
          omega (arith, v.unique t h, rw (not_tagged t h) at (count_p-set (has_tag t) ms i d at));
      lone = λ q h.
          let b = rw (not_bare q) at (count_p-set (bare q) ms i d at) in
          let n = rw (not_named q) at (count_p-set (named q) ms i d at) in
          omega (arith, b, n, v.lone q (omega (arith, b)));
    }

    place_referrer-WellFormed :
        (ms : List (Descriptor D)) → WellFormed ms → WellFormed (place_referrer subject d ms)
    unfolding place_referrer
    place_referrer-WellFormed ms v = elim (Option-cases (index_func (has_subject subject) ms)) [
      | inl h ↦ rw (h, place_referrer) (WellFormed-append ms v)
      | inr (i, h) ↦
          let (x, at, _, _) = index_func-found (has_subject subject) ms h in
          rw (h, place_referrer) (WellFormed-set ms i at v)
    ]

  Removed-WellFormed :
      (tag : String) (dig : D)
      → tag ≢ ""
      → (ms ms' : List (Descriptor D)) → Removed tag dig ms ms'
      → WellFormed ms
      → WellFormed ms'
  Removed-WellFormed tag dig some_tag ms ms' (Removed.deleted o a) v =
      rw a (WellFormed-delete_func (target tag dig) ms v)
  Removed-WellFormed tag dig some_tag ms ms' (Removed.dropped i cur o at tcur a) v =
      let same : cur.digest ≡ dig = (==_iff cur.digest dig).0 (ground arith) in
      rw a (
        WellFormed-drop_tag tag ms i cur at some_tag (ground arith)
          (subst (λ x. any (beside tag x) ms ≡ false) (sym same) o) v)
  Removed-WellFormed tag dig some_tag ms ms' (Removed.kept z a) v = rw a v

no_tag :
    {D : Type 0} (d : Descriptor D)
    → annotation_val d annot_referrer_subject ≢ ""
    → (annotation_val d annot_referrer_subject ≡ "") ⊎ (annotation_val d annot_ref_name ≡ "")
    → annotation_val d annot_ref_name ≡ ""
no_tag d some_subject (inl h) = absurd (some_subject h)
no_tag d some_subject (inr h) = h

module _ {D : Type 0} ⦃e : Comparable D⦄ (clock : Clock) (d : Descriptor D) where
  moved_WellFormed :
      (children ms cs : List (Descriptor D))
      → WellFormed ms
      → WellFormed (move_children children (ms, cs)).0
  moved_WellFormed =
      move_children_induction (λ ms cs. WellFormed ms)
        (λ child ms cs ms' cs' m v. Moved-WellFormed child ms cs ms' cs' m v)

  cleared_WellFormed :
      (tag : String) (dig : D) (ms : List (Descriptor D))
      → WellFormed ms
      → WellFormed (untag tag dig ms)
  cleared_WellFormed tag dig =
      untag_induction tag dig WellFormed (λ ms ms' t u v. Untagged-WellFormed tag dig ms ms' t u v)

  -- `AddDesc` of a descriptor that is not a referrers response with a tag keeps that each tag is on at most one
  -- entry, and that an entry without annotations has its digest in common with no other entry without
  -- annotations and with no entry with a tag.
  pub add_desc-WellFormed :
      (opts : List (LayoutIndexOpt D)) (li : LayoutIndex D)
      → (annotation_val d annot_referrer_subject ≡ "") ⊎ (annotation_val d annot_ref_name ≡ "")
      → WellFormed li.index.manifests
      → WellFormed (add_desc clock d opts li).index.manifests
  unfolding add_desc insert_desc
  add_desc-WellFormed opts li kind v =
      let tag = annotation_val d annot_ref_name in
      let subject = annotation_val d annot_referrer_subject in
      let children = (apply_opts opts).children in
      let moved = move_children children (li.index.manifests, li.child_manifests) in
      let moved_ok = moved_WellFormed children li.index.manifests li.child_manifests v in
      let d' = stamp clock d in
      elim (Bool-cases (subject == "")) [
        | inl t ↦
            let cleared = untag tag d'.digest moved.0 in
            rw t (
              Placed-WellFormed tag d' cleared (stamp-tag d clock)
                (λ h. untag-stale tag d'.digest h moved.0)
                (cleared_WellFormed tag d'.digest moved.0 moved_ok) (place tag d' cleared)
                (place-Placed tag d' cleared))
        | inr t ↦ rw t (
            place_referrer-WellFormed subject d' (stamp-subject d clock)
              (λ h. cc (t, (==_iff subject "").1 h))
              (stamp-tag d clock ∙ no_tag d (λ h. cc (t, (==_iff subject "").1 h)) kind) moved.0
              moved_ok)
      ]

  -- `RmDesc` keeps the invariant.
  pub rm_desc-WellFormed :
      (li : LayoutIndex D)
      → WellFormed li.index.manifests
      → WellFormed (rm_desc clock d li).index.manifests
  unfolding rm_desc rm_digest
  rm_desc-WellFormed li v =
      let tag = annotation_val d annot_ref_name in
      let ms = li.index.manifests in
      elim (Bool-cases (tag == "")) [
        | inl t ↦ rw t (WellFormed-delete_func (has_digest d.digest) ms v)
        | inr t ↦ rw t (
            Removed-WellFormed tag d.digest (λ h. cc (t, (==_iff tag "").1 h)) ms
              (rm_tagged clock tag d.digest li).index.manifests
              (rm_tagged-Removed tag d.digest clock li) v)
      ]
