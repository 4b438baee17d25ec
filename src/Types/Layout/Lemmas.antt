-- ===== src/Types/Layout/Lemmas.antt =====
-- The annotations of an entry after the steps that `AddDesc` and `RmDesc` are made of.
use mathlib.Core.Option
use olareg.Shared.{
  String, [], ◌∷◌, Option, none, some, true, false, ◌≡◌, refl, ◌==◌, ==_iff, string_comparable,
  arith,
}
use olareg.Shared.GoMap
use olareg.Types.Descriptor.{
  Descriptor, Annotations, annotation_val, annotation_at, text_at, annot_created, annot_ref_name,
  annot_referrer_subject, text_at-delete, text_at-put,
}
use olareg.Types.Layout.{Clock, drop_tag, only_created, no_other, annotations_empty}
use olareg.Types.Layout.History.{allocated, stamp_map, stamp}

created_ne_ref_name : (annot_created == annot_ref_name) ≡ false
created_ne_ref_name = refl

text_at-nil : (key : String) → text_at [] key ≡ ""
unfolding text_at GoMap.lookup
text_at-nil key = refl

only_created-text_at :
    (m : Annotations) (key : String)
    → (annot_created == key) ≡ false
    → only_created m ≡ true
    → text_at m key ≡ ""
unfolding only_created text_at GoMap.lookup
only_created-text_at [] key n h = refl
only_created-text_at ((k, v) ∷ m) key n h = ground (
  arith,
  ==_iff k annot_created,
  ==_iff k key,
  ==_iff annot_created key,
  only_created-text_at m key n,
)

no_other-tag : (m : Option Annotations) → no_other m ≡ true → annotation_at m annot_ref_name ≡ ""
no_other-tag none h = refl
no_other-tag (some m) h = only_created-text_at m annot_ref_name created_ne_ref_name h

no_other-subject :
    (m : Option Annotations) → no_other m ≡ true → annotation_at m annot_referrer_subject ≡ ""
no_other-subject none h = refl
no_other-subject (some m) h = only_created-text_at m annot_referrer_subject refl h

delete-tag :
    (m : Option Annotations)
    → annotation_at (Option.map (GoMap.delete annot_ref_name) m) annot_ref_name ≡ ""
delete-tag none = refl
delete-tag (some m) = text_at-delete annot_ref_name annot_ref_name m

stamp-at :
    (clock : Clock) (m : Option Annotations) (key : String)
    → (annot_created == key) ≡ false
    → text_at (stamp_map clock (allocated m)) key ≡ annotation_at m key
unfolding stamp_map allocated
stamp-at clock none key h =
    ground
      (arith, text_at-put annot_created key (clock.format_rfc3339 clock.now) [], text_at-nil key)
stamp-at clock (some m) key h =
    ground (arith, text_at-put annot_created key (clock.format_rfc3339 clock.now) m)

module _ {D : Type 0} (c : Descriptor D) where
  pub annotations_empty-tag : annotations_empty c ≡ true → annotation_val c annot_ref_name ≡ ""
  unfolding annotations_empty annotation_val
  annotations_empty-tag h = no_other-tag c.annotations h

  pub annotations_empty-subject :
      annotations_empty c ≡ true → annotation_val c annot_referrer_subject ≡ ""
  unfolding annotations_empty annotation_val
  annotations_empty-subject h = no_other-subject c.annotations h

  pub drop_tag-tag : annotation_val (drop_tag c) annot_ref_name ≡ ""
  unfolding drop_tag annotation_val
  drop_tag-tag = delete-tag c.annotations

  pub drop_tag-digest : (drop_tag c).digest ≡ c.digest
  unfolding drop_tag
  drop_tag-digest = refl

  pub stamp-tag :
      (clock : Clock)
      → annotation_val (stamp clock c) annot_ref_name ≡ annotation_val c annot_ref_name
  unfolding stamp annotation_val
  stamp-tag clock = stamp-at clock c.annotations annot_ref_name refl

  pub stamp-subject :
      (clock : Clock)
      → annotation_val (stamp clock c) annot_referrer_subject
        ≡ annotation_val c annot_referrer_subject
  unfolding stamp annotation_val
  stamp-subject clock = stamp-at clock c.annotations annot_referrer_subject refl

  pub stamp-digest : (clock : Clock) → (stamp clock c).digest ≡ c.digest
  unfolding stamp
  stamp-digest clock = refl
