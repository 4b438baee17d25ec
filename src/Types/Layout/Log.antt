-- ===== src/Types/Layout/Log.antt =====
-- What `AddDesc` and `RmDesc` write to the history of each tag (types/layout.go).
use mathlib.Core.List.{append_assoc, append-nil}
use olareg.Shared.{
  String, List, [], ◌∷◌, ◌++◌, Bool, true, false, ◌&&◌, ◌≡◌, ◌≢◌, refl, sym, ap, ◌∙◌, Comparable,
  ==_iff, string_comparable, arith, Bool-cases, inl, inr, if◌then◌else◌,
}
use olareg.Shared.GoMap.{lookup-put}
use olareg.Types.Descriptor.{Descriptor, annotation_val, annot_ref_name, annot_referrer_subject}
use olareg.Types.Layout.{Clock, LayoutHistory, LayoutIndex, LayoutIndexOpt, has_tag, has_digest}
use olareg.Types.Layout.History.{
  History, history_of, history_entry, add_history, history_removed, stamp,
}
use olareg.Types.Layout.Lemmas.{stamp-tag}
use olareg.Types.Layout.Operations.{insert_desc, add_desc, rm_digest, rm_desc}

module _ {D : Type 0} (clock : Clock) (t : String) where
  -- The deletions of the entries that pass a test and have the tag, in the order of the entries.
  unfoldable pub deletions : (Descriptor D → Bool) → List (Descriptor D) → List (LayoutHistory D)
  deletions p [] = []
  deletions p (x ∷ xs) =
      let rest = deletions p xs in
      if p x && has_tag t x then history_entry clock x true ∷ rest else rest

module _ {D : Type 0} (clock : Clock) (t : String) (named : t ≢ "") where
  history_of-add_history :
      (d : Descriptor D) (del : Bool) (h : History D)
      → history_of t (add_history clock d del h)
        ≡ (if has_tag t d then history_of t h ++ history_entry clock d del ∷ [] else history_of t h)
  unfolding history_of add_history
  history_of-add_history d del h =
      let tag = annotation_val d annot_ref_name in
      ground (
        arith,
        ==_iff tag "",
        ==_iff tag t,
        lookup-put tag t (history_of tag h ++ history_entry clock d del ∷ []) h,
      )

  logged :
      (x : Descriptor D) (h : History D)
      → has_tag t x ≡ true
      → history_of t (add_history clock x true h)
        ≡ history_of t h ++ history_entry clock x true ∷ []
  logged x h n = history_of-add_history x true h ∙ rw n refl

  unlogged :
      (x : Descriptor D) (h : History D)
      → has_tag t x ≡ false
      → history_of t (add_history clock x true h) ≡ history_of t h
  unlogged x h n = history_of-add_history x true h ∙ rw n refl

  history_of-history_removed :
      (p : Descriptor D → Bool) (ms : List (Descriptor D)) (h : History D)
      → history_of t (history_removed clock p ms h) ≡ history_of t h ++ deletions clock t p ms
  unfolding history_removed deletions
  history_of-history_removed p [] h = sym (append-nil (history_of t h))
  history_of-history_removed p (x ∷ xs) h = elim (Bool-cases (p x)) [
    | inr f ↦ rw f (history_of-history_removed p xs h)
    | inl y ↦
        let after : History D = add_history clock x true h in
        let later = history_of-history_removed p xs after in
        let entry = history_entry clock x true in
        elim (Bool-cases (has_tag t x)) [
          | inr n ↦ rw (y, n) (later ∙ ap (λ l. l ++ deletions clock t p xs) (unlogged x h n))
          | inl n ↦
              rw (y, n)
                (later
                  ∙ ap (λ l. l ++ deletions clock t p xs) (logged x h n)
                  ∙ append_assoc (history_of t h) (entry ∷ []) (deletions clock t p xs))
        ]
  ]

module _ {D : Type 0} ⦃e : Comparable D⦄ (clock : Clock) (d : Descriptor D) (li : LayoutIndex D)
    (t : String) (named : t ≢ "") where
  -- `AddDesc` of an entry that is no referrers response appends one entry, of a creation, to the
  -- history of its tag, and leaves the history of every other tag.
  pub history_of-add_desc :
      (opts : List (LayoutIndexOpt D))
      → annotation_val d annot_referrer_subject ≡ ""
      → history_of t (add_desc clock d opts li).history ≡ (
          if has_tag t d
          then history_of t li.history ++ history_entry clock (stamp clock d) false ∷ []
          else history_of t li.history)
  unfolding add_desc insert_desc
  history_of-add_desc opts plain = ground (
    arith,
    stamp-tag d clock,
    ==_iff (annotation_val d annot_referrer_subject) "",
    history_of-add_history clock t named (stamp clock d) false li.history,
  )

  -- `RmDesc` of a descriptor without a tag appends a deletion to the history of a tag for each
  -- entry of the digest that has the tag, in their order, and nothing else.
  pub history_of-rm_desc :
      annotation_val d annot_ref_name ≡ ""
      → history_of t (rm_desc clock d li).history
        ≡ history_of t li.history ++ deletions clock t (has_digest d.digest) li.index.manifests
  unfolding rm_desc rm_digest
  history_of-rm_desc untagged = ground (
    arith,
    ==_iff (annotation_val d annot_ref_name) "",
    history_of-history_removed clock t named (has_digest d.digest) li.index.manifests li.history,
  )
