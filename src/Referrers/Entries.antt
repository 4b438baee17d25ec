-- ===== src/Referrers/Entries.antt =====
-- The entry of the top index that names a list of referrers (referrer.go, types/layout.go).
use olareg.Shared.{
  String, List, [], ◌∷◌, some, Bool, true, ◌≡◌, ◌≢◌, refl, Comparable, ==_iff, string_comparable,
  arith, Option-cases, Bool-cases, inl, inr,
}
use olareg.Shared.GoMap
use olareg.Shared.Slices.{find?, index_func, set}
use olareg.Types.Descriptor.{Descriptor, annotation_val, text_at, annot_referrer_subject}
use olareg.Types.Referrer.{has_annotation}
use olareg.Types.Layout.{
  Clock, LayoutIndex, LayoutIndexOpt, has_subject, place_referrer, move_children, apply_opts,
}
use olareg.Types.Layout.History.{stamp}
use olareg.Types.Layout.Operations.{add_desc, insert_desc}

module _ {D : Type 0} where
  pub has_annotation-subject :
      (t : String) (d : Descriptor D)
      → t ≢ ""
      → has_annotation annot_referrer_subject t d ≡ has_subject t d
  unfolding annotation_val text_at
  has_annotation-subject t d h = elim (Option-cases d.annotations) [
    | inl q ↦ ground (arith, ==_iff "" t)
    | inr (m, q) ↦ elim (Option-cases (GoMap.lookup annot_referrer_subject m)) [
      | inl g ↦ ground (arith, ==_iff "" t)
      | inr (v, g) ↦ ground (arith, ==_iff t "", ==_iff t v, ==_iff v t)
    ]
  ]

  pub find?_congr :
      (p q : Descriptor D → Bool) (ds : List (Descriptor D))
      → ((d : Descriptor D) → p d ≡ q d)
      → find? p ds ≡ find? q ds
  unfolding find?
  find?_congr p q [] h = refl
  find?_congr p q (d ∷ ds) h = ground (arith, h d, find?_congr p q ds h)

module _ {D : Type 0} ⦃e : Comparable D⦄ where
  pub find?-place_referrer :
      (t : String) (d : Descriptor D) (ms : List (Descriptor D))
      → has_subject t d ≡ true
      → find? (has_subject t) (place_referrer t d ms) ≡ some d
  unfolding find? place_referrer index_func set
  find?-place_referrer t d [] h = ground arith
  find?-place_referrer t d (m ∷ ms) h = elim (Bool-cases (has_subject t m)) [
    | inl q ↦ ground arith
    | inr q ↦ elim (Option-cases (index_func (has_subject t) ms)) [
      | inl g ↦ ground (arith, find?-place_referrer t d ms h)
      | inr (n, g) ↦ ground (arith, find?-place_referrer t d ms h)
    ]
  ]

  pub add_desc-referrer :
      (clock : Clock) (d : Descriptor D) (opts : List (LayoutIndexOpt D)) (li : LayoutIndex D)
      → annotation_val d annot_referrer_subject ≢ ""
      → (ms : List (Descriptor D)) × ((add_desc clock d opts li).index.manifests
          ≡ place_referrer (annotation_val d annot_referrer_subject) (stamp clock d) ms)
  unfolding add_desc insert_desc
  add_desc-referrer clock d opts li h =
      let moved =
        move_children (apply_opts opts).children (li.index.manifests, li.child_manifests) in
      (moved.0, ground (arith, ==_iff (annotation_val d annot_referrer_subject) ""))
