-- ===== src/Types/Layout/Tags.antt =====
-- What `AddDesc` does to the tags of an index, as `GetDesc` shows them (types/layout.go).
use olareg.Shared.{
  String, List, true, false, ◌≡◌, ◌≢◌, refl, ◌∙◌, Comparable, ==_iff, ==_self, string_comparable,
  arith,
}
use olareg.Shared.Slices.{find?}
use olareg.Types.Error.{ok}
use olareg.Types.Digest.{DigestLib}
use olareg.Types.Descriptor.{Descriptor, annotation_val, annot_ref_name, annot_referrer_subject}
use olareg.Types.Tag.{ref_tag_re}
use olareg.Types.Layout.{
  Clock, LayoutIndex, LayoutIndexOpt, apply_opts, has_tag, drop_tag, annotations_empty,
  move_children, untag, place,
}
use olareg.Types.Layout.History.{stamp}
use olareg.Types.Layout.Lemmas.{annotations_empty-tag, drop_tag-tag, stamp-tag, stamp-digest}
use olareg.Types.Layout.Operations.{get_desc, insert_desc, add_desc}
use olareg.Types.Layout.Steps.{
  first_index-find?, get_desc-tag, move_children-find?, untag-find?, untag-stale,
}
use olareg.Types.Layout.Place.{place-find?, place-found}

-- A tag is never the empty text.
pub ref_tag_re-empty : (t : String) → ref_tag_re t ≡ true → t ≢ ""
unfolding ref_tag_re
ref_tag_re-empty t h eq = let h' : ref_tag_re "" ≡ true = rw eq at h in cc

module _ {D : Type 0} (t : String) (c : Descriptor D) where
  untagged : t ≢ "" → annotation_val c annot_ref_name ≡ "" → has_tag t c ≡ false
  untagged named h = ground (arith, ==_iff "" t)

  other_tag : {tag : String} → t ≢ tag → has_tag tag c ≡ true → has_tag t c ≡ false
  other_tag {tag = tag} other h = ground (
    arith,
    ==_iff (annotation_val c annot_ref_name) tag,
    ==_iff (annotation_val c annot_ref_name) t,
  )

  ne_tag : (clock : Clock) → t ≢ annotation_val c annot_ref_name → has_tag t (stamp clock c) ≡ false
  ne_tag clock other = ground (arith, stamp-tag c clock, ==_iff (annotation_val c annot_ref_name) t)

own_tag :
    {D : Type 0} (clock : Clock) (c : Descriptor D)
    → has_tag (annotation_val c annot_ref_name) (stamp clock c) ≡ true
own_tag clock c = rw (stamp-tag c clock) (==_self (annotation_val c annot_ref_name))

module _ {D : Type 0} ⦃e : Comparable D⦄ (clock : Clock) (d : Descriptor D)
    (opts : List (LayoutIndexOpt D)) (li : LayoutIndex D)
    (plain : annotation_val d annot_referrer_subject ≡ "") where
  -- The manifests that `AddDesc` leaves, where the descriptor is no referrers response.
  pub add_desc-manifests :
      (add_desc clock d opts li).index.manifests
      ≡ place (annotation_val d annot_ref_name) (stamp clock d) (
          untag
            (annotation_val d annot_ref_name)
            d.digest
            (move_children (apply_opts opts).children (li.index.manifests, li.child_manifests)).0)
  unfolding add_desc insert_desc
  add_desc-manifests =
      ground (arith, ==_iff (annotation_val d annot_referrer_subject) "", stamp-digest d clock)

  -- Adding an entry that is no referrers response leaves the lookup of every other tag as it was,
  -- the whole descriptor or the error.
  pub get_desc-add_desc_ne :
      (lib : DigestLib D) (t : String)
      → ref_tag_re t ≡ true
      → t ≢ annotation_val d annot_ref_name
      → get_desc lib t (add_desc clock d opts li) ≡ get_desc lib t li
  unfolding get_desc
  get_desc-add_desc_ne lib t is_tag other =
      let tag = annotation_val d annot_ref_name in
      let children = (apply_opts opts).children in
      let ms = li.index.manifests in
      let moved = (move_children children (ms, li.child_manifests)).0 in
      let named = ref_tag_re-empty t is_tag in
      let tagged = λ (c : Descriptor D) (h : annotations_empty c ≡ true).
        untagged t c named (annotations_empty-tag c h) in
      let same : find? (has_tag t) (add_desc clock d opts li).index.manifests
          ≡ find? (has_tag t) ms =
        rw add_desc-manifests (
          place-find? tag (stamp clock d) (has_tag t) tagged (ne_tag t d clock other)
            (untag tag d.digest moved)
          ∙ untag-find? tag d.digest (has_tag t) (λ c h. other_tag t c other h)
              (λ c. untagged t (drop_tag c) named (drop_tag-tag c)) moved
          ∙ move_children-find? (has_tag t) tagged children ms li.child_manifests) in
      rw (is_tag, first_index-find?, first_index-find?, same) refl

  -- After a tagged entry that is no referrers response is added, the tag resolves to its digest.
  pub get_desc-add_desc_self :
      (lib : DigestLib D)
      → ref_tag_re (annotation_val d annot_ref_name) ≡ true
      → (c : Descriptor D) × (get_desc lib
            (annotation_val d annot_ref_name)
            (add_desc clock d opts li)
          ≡ ok c)
        × (c.digest ≡ d.digest)
  unfolding stamp
  get_desc-add_desc_self lib is_tag =
      let tag = annotation_val d annot_ref_name in
      let moved =
        (move_children (apply_opts opts).children (li.index.manifests, li.child_manifests)).0 in
      let named = ref_tag_re-empty tag is_tag in
      let (c, first, same) =
        place-found tag (stamp clock d) (untag tag d.digest moved) (own_tag clock d) named
          (untag-stale tag d.digest named moved) in
      (
        c,
        get_desc-tag lib tag (add_desc clock d opts li) is_tag (rw add_desc-manifests first),
        same,
      )
