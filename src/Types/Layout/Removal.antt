-- ===== src/Types/Layout/Removal.antt =====
-- What `RmDesc` does to the entries of an index (types/layout.go).
use olareg.Shared.{
  ℕ, ◌≤◌, ◌<◌, String, List, some, Bool, true, false, ◌&&◌, not, ◌≡◌, ◌≢◌, refl, Comparable, ◌==◌,
  ==_iff, string_comparable, arith, Option-cases, Bool-cases, inl, inr,
}
use olareg.Shared.Slices.{get_elem?, find?, any, index_func, delete_at, set, count_p, delete_func}
use olareg.Shared.Counting.{
  index_func-found, index_func-none, any-count, count_p-delete_at, count_p-set, count_p-delete_func,
  count_p_mono, count_p_congr, get_elem?-count, find?-set, find?-delete_func,
}
use olareg.Types.Descriptor.{Descriptor, annotation_val, annot_ref_name}
use olareg.Types.Layout.{Clock, LayoutIndex, has_tag, has_digest, drop_tag}
use olareg.Types.Layout.Lemmas.{drop_tag-tag, drop_tag-digest}
use olareg.Types.Layout.Operations.{rm_tagged}

module _ {D : Type 0} ⦃e : Comparable D⦄ (tag : String) (dig : D) where
  -- An entry of the digest with the tag, and one with another tag or none.
  abbrev pub target : Descriptor D → Bool
  target c = c.digest == dig && has_tag tag c

  abbrev pub beside : Descriptor D → Bool
  beside c = c.digest == dig && not (has_tag tag c)

  pub data Removed (ms ms' : List (Descriptor D)) : Type 0 where
    deleted : any beside ms ≡ true → ms' ≡ delete_func target ms → Removed ms ms'
    dropped :
        (i : ℕ) (cur : Descriptor D)
        → any beside ms ≡ false
        → get_elem? ms i ≡ some cur
        → target cur ≡ true
        → ms' ≡ set ms i (drop_tag cur)
        → Removed ms ms'
    kept : count_p target ms ≡ 0 → ms' ≡ ms → Removed ms ms'

  pub rm_tagged-Removed :
      (clock : Clock) (li : LayoutIndex D)
      → Removed li.index.manifests (rm_tagged clock tag dig li).index.manifests
  unfolding rm_tagged
  rm_tagged-Removed clock li =
      let ms = li.index.manifests in
      elim (Bool-cases (any beside ms)) [
        | inl o ↦ rw (o, rm_tagged) (Removed.deleted o refl)
        | inr o ↦ elim (Option-cases (index_func target ms)) [
          | inl h ↦ rw (o, h, rm_tagged) (Removed.kept (index_func-none target ms h) refl)
          | inr (i, h) ↦
              let (x, at, tx, _) = index_func-found target ms h in
              rw (o, h, at, rm_tagged) (Removed.dropped i x o at tx refl)
        ]
      ]

  pub child_manifests-rm_tagged :
      (clock : Clock) (li : LayoutIndex D)
      → (rm_tagged clock tag dig li).child_manifests ≡ li.child_manifests
  unfolding rm_tagged
  child_manifests-rm_tagged clock li = ground arith

  -- The tag is gone, if it named one entry, of the digest.
  pub Removed-tag :
      (ms ms' : List (Descriptor D)) (i : ℕ) (c : Descriptor D)
      → get_elem? ms i ≡ some c
      → target c ≡ true
      → count_p (has_tag tag) ms ≤ 1
      → tag ≢ ""
      → Removed ms ms'
      → count_p (has_tag tag) ms' ≡ 0
  Removed-tag ms ms' i c at tc one some_tag (Removed.deleted o a) =
      let rest = λ (x : Descriptor D). has_tag tag x && not (target x) in
      rw (a, count_p-delete_func)
        (ground (
          arith,
          count_p-delete_at rest ms i at,
          count_p-delete_at (has_tag tag) ms i at,
          count_p_mono rest (has_tag tag) (delete_at ms i) (λ x p. ground arith),
        ))
  Removed-tag ms ms' i c at tc one some_tag (Removed.dropped j cur o at' tcur a) = rw a (
      ground
        (arith, count_p-set (has_tag tag) ms j (drop_tag cur) at', drop_tag-tag cur, ==_iff "" tag))
  Removed-tag ms ms' i c at tc one some_tag (Removed.kept z a) =
      absurd (omega (arith, z, get_elem?-count target ms i at tc))

  -- No digest is lost.
  pub Removed-keeps :
      (ms ms' : List (Descriptor D)) (q : D)
      → Removed ms ms'
      → 0 < count_p (has_digest q) ms
      → 0 < count_p (has_digest q) ms'
  Removed-keeps ms ms' q (Removed.deleted o a) h =
      let rest = λ (x : Descriptor D). has_digest q x && not (target x) in
      rw (a, count_p-delete_func)
        (elim (Bool-cases (dig == q)) [
          | inl t ↦
              let more : count_p beside ms ≤ count_p rest ms =
                count_p_mono beside rest ms
                  (λ x p. ground (arith, ==_iff x.digest dig, ==_iff x.digest q, ==_iff dig q)) in
              omega (arith, any-count beside ms o, more)
          | inr t ↦
              let same : count_p rest ms ≡ count_p (has_digest q) ms =
                count_p_congr rest (has_digest q) ms
                  (λ x. ground (arith, ==_iff x.digest dig, ==_iff x.digest q, ==_iff dig q)) in
              omega (arith, same)
        ])
  Removed-keeps ms ms' q (Removed.dropped j cur o at tcur a) h =
      rw a (ground (arith, count_p-set (has_digest q) ms j (drop_tag cur) at, drop_tag-digest cur))
  Removed-keeps ms ms' q (Removed.kept z a) h = rw a h

  -- The first entry with another tag stays.
  pub Removed-find? :
      (t : String) (ms ms' : List (Descriptor D))
      → t ≢ tag
      → t ≢ ""
      → Removed ms ms'
      → find? (has_tag t) ms' ≡ find? (has_tag t) ms
  Removed-find? t ms ms' other some_tag (Removed.deleted o a) = rw a (
      find?-delete_func (has_tag t) target ms (λ x p. ground (
        arith,
        ==_iff (annotation_val x annot_ref_name) t,
        ==_iff (annotation_val x annot_ref_name) tag,
      )))
  Removed-find? t ms ms' other some_tag (Removed.dropped j cur o at tcur a) = rw a (
      find?-set (has_tag t) ms j (drop_tag cur) at
        (ground (
          arith,
          ==_iff (annotation_val cur annot_ref_name) t,
          ==_iff (annotation_val cur annot_ref_name) tag,
        ))
        (ground (arith, drop_tag-tag cur, ==_iff (annotation_val (drop_tag cur) annot_ref_name) t)))
  Removed-find? t ms ms' other some_tag (Removed.kept z a) = rw a refl
