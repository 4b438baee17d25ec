-- ===== src/Types/Layout/Deletes.antt =====
-- What `GetDesc` finds after `RmDesc` (types/layout.go).
use olareg.Shared.{
  String, List, [], ◌∷◌, Option, none, some, Bool, true, ◌≡◌, ◌≢◌, refl, Comparable, ==_iff,
  string_comparable, arith,
}
use olareg.Shared.Slices.{find?, count_p, delete_func}
use olareg.Shared.Counting.{find?-delete_func, find?-none, find?-get_elem?, find?-some}
use olareg.Types.Error.{Result, ok, err, not_found}
use olareg.Types.Digest.{DigestLib}
use olareg.Types.Descriptor.{Descriptor, annotation_val, annot_ref_name}
use olareg.Types.Tag.{ref_tag_re}
use olareg.Types.Layout.{Clock, LayoutIndex, has_tag, has_digest}
use olareg.Types.Layout.Operations.{strip, get_digest, get_desc, rm_tagged, rm_digest, rm_desc}
use olareg.Types.Layout.Steps.{first_index-find?}
use olareg.Types.Layout.Tags.{ref_tag_re-empty}
use olareg.Types.Layout.WellFormed.{WellFormed}
use olareg.Types.Layout.Digests.{Knows, get_digest-Knows, Knows-get_digest}
use olareg.Types.Layout.Removal.{
  rm_tagged-Removed, child_manifests-rm_tagged, Removed-tag, Removed-keeps, Removed-find?,
}

module _ {D : Type 0} where
  abbrev pick : Option (Descriptor D) → Option (Descriptor D) → Result (Descriptor D)
  pick (some c) _ = ok (strip c)
  pick none (some c) = ok (strip c)
  pick none none = err not_found

  count_deleted :
      (p : Descriptor D → Bool) (ms : List (Descriptor D)) → count_p p (delete_func p ms) ≡ 0
  unfolding count_p delete_func
  count_deleted p [] = refl
  count_deleted p (x ∷ ms) = ground (arith, count_deleted p ms)

  find?-deleted :
      (p : Descriptor D → Bool) (ms : List (Descriptor D)) → find? p (delete_func p ms) ≡ none
  find?-deleted p ms = find?-none p (delete_func p ms) (count_deleted p ms)

module _ {D : Type 0} ⦃e : Comparable D⦄ where
  get_digest-pick :
      (q : D) (li : LayoutIndex D)
      → get_digest q li
        ≡ pick (find? (has_digest q) li.index.manifests) (find? (has_digest q) li.child_manifests)
  unfolding get_digest
  get_digest-pick q li = ground (
    arith,
    first_index-find? (has_digest q) li.index.manifests,
    first_index-find? (has_digest q) li.child_manifests,
  )

  find?-others :
      (q dig : D) (ms : List (Descriptor D))
      → q ≢ dig
      → find? (has_digest q) (delete_func (has_digest dig) ms) ≡ find? (has_digest q) ms
  find?-others q dig ms other =
      find?-delete_func (has_digest q) (has_digest dig) ms
        (λ c h. ground (arith, ==_iff c.digest q, ==_iff c.digest dig))

module _ {D : Type 0} ⦃e : Comparable D⦄ (clock : Clock) (d : Descriptor D)
    (li : LayoutIndex D) where
  module _ (untagged : annotation_val d annot_ref_name ≡ "") where
    rm_desc-untagged : rm_desc clock d li ≡ rm_digest clock d.digest li
    unfolding rm_desc
    rm_desc-untagged = ground (arith, ==_iff (annotation_val d annot_ref_name) "")

    -- After a descriptor without a tag is removed, its digest is not found, as an entry or a child.
    pub get_digest-rm_desc : get_digest d.digest (rm_desc clock d li) ≡ err not_found
    unfolding rm_digest
    get_digest-rm_desc = rw (rm_desc-untagged, get_digest-pick, find?-deleted, find?-deleted) refl

    -- After a descriptor without a tag is removed, every other digest is found as it was.
    pub get_digest-rm_desc_ne :
        (q : D) → q ≢ d.digest → get_digest q (rm_desc clock d li) ≡ get_digest q li
    unfolding rm_digest
    get_digest-rm_desc_ne q other =
        rw (rm_desc-untagged, get_digest-pick q (rm_digest clock d.digest li))
          (rw
            (
              get_digest-pick q li,
              find?-others q d.digest li.index.manifests other,
              find?-others q d.digest li.child_manifests other,
            )
            refl)

  module _ (some_tag : annotation_val d annot_ref_name ≢ "") where
    rm_desc-tagged :
        rm_desc clock d li ≡ rm_tagged clock (annotation_val d annot_ref_name) d.digest li
    unfolding rm_desc
    rm_desc-tagged = ground (arith, ==_iff (annotation_val d annot_ref_name) "")

    Knows-rm_desc : (q : D) → Knows q li → Knows q (rm_desc clock d li)
    unfolding Knows
    Knows-rm_desc q h =
        let tag = annotation_val d annot_ref_name in
        let after = rm_tagged clock tag d.digest li in
        rw rm_desc-tagged (
          ground (
            arith,
            child_manifests-rm_tagged tag d.digest clock li,
            Removed-keeps tag d.digest li.index.manifests after.index.manifests q
                (rm_tagged-Removed tag d.digest clock li),
          ))

    -- The removal of a tag loses no digest, the one that was tagged included.
    pub get_digest-rm_desc_tagged :
        (q : D) {c : Descriptor D}
        → get_digest q li ≡ ok c
        → (c' : Descriptor D) × (get_digest q (rm_desc clock d li) ≡ ok c') × (c'.digest ≡ q)
    get_digest-rm_desc_tagged q h =
        get_digest-Knows q (rm_desc clock d li) (Knows-rm_desc q (Knows-get_digest q li h))

  -- The removal of a tag leaves the lookup of every other tag as it was.
  pub get_desc-rm_desc_ne :
      (lib : DigestLib D) (t : String)
      → annotation_val d annot_ref_name ≢ ""
      → ref_tag_re t ≡ true
      → t ≢ annotation_val d annot_ref_name
      → get_desc lib t (rm_desc clock d li) ≡ get_desc lib t li
  unfolding get_desc
  get_desc-rm_desc_ne lib t some_tag is_tag other =
      let tag = annotation_val d annot_ref_name in
      let after = rm_tagged clock tag d.digest li in
      let same =
        Removed-find? tag d.digest t li.index.manifests after.index.manifests other
          (ref_tag_re-empty t is_tag) (rm_tagged-Removed tag d.digest clock li) in
      rw (is_tag, rm_desc-tagged some_tag, first_index-find?, first_index-find?, same) refl

  -- In a well-formed index, when the tag of the descriptor resolves to its digest, the tag is not
  -- found after the descriptor is removed.
  pub get_desc-rm_desc :
      (lib : DigestLib D) {c : Descriptor D}
      → WellFormed li.index.manifests
      → ref_tag_re (annotation_val d annot_ref_name) ≡ true
      → get_desc lib (annotation_val d annot_ref_name) li ≡ ok c
      → c.digest ≡ d.digest
      → get_desc lib (annotation_val d annot_ref_name) (rm_desc clock d li) ≡ err not_found
  unfolding get_desc
  get_desc-rm_desc lib {c} v is_tag found same =
      let tag = annotation_val d annot_ref_name in
      let ms = li.index.manifests in
      let after = rm_tagged clock tag d.digest li in
      let named = ref_tag_re-empty tag is_tag in
      let first : find? (has_tag tag) ms ≡ some c =
        ground (arith, first_index-find? (has_tag tag) ms) in
      let (i, at) = find?-get_elem? (has_tag tag) ms first in
      let gone =
        Removed-tag tag d.digest ms after.index.manifests i c at
          (ground (arith, find?-some (has_tag tag) ms first, ==_iff c.digest d.digest))
          (v.unique tag named) named (rm_tagged-Removed tag d.digest clock li) in
      rw
        (
          is_tag,
          rm_desc-tagged named,
          first_index-find?,
          find?-none (has_tag tag) after.index.manifests gone,
        )
        refl
