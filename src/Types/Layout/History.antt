-- ===== src/Types/Layout/History.antt =====
-- The stamp of a new entry, and the history of a tag (types/layout.go).
use olareg.Shared.{
  ℕ, String, List, [], ◌∷◌, ◌++◌, Option, none, some, Bool, true, ◌==◌, string_comparable,
  nat_comparable, if◌then◌else◌,
}
use olareg.Shared.GoMap
use olareg.Shared.GoMap.{GoMap}
use olareg.Types.Descriptor.{
  Descriptor, Annotations, annotation_val, annot_created, annot_ref_name, text_at,
}
use olareg.Types.Layout.{Clock, LayoutHistory}

abbrev pub History : Type 0 → Type 0
History D = GoMap String (List (LayoutHistory D))

module _ {D : Type 0} where
  -- `li.History[tag]`, the empty slice where there is none
  unfoldable pub history_of : String → History D → List (LayoutHistory D)
  history_of tag h = elim (GoMap.lookup tag h) [ none ↦ [] | some l ↦ l ]

-- `if d.Annotations == nil { d.Annotations = map[string]string{} }`
unfoldable pub allocated : Option Annotations → Annotations
allocated none = []
allocated (some m) = m

unfoldable pub stamp_map : Clock → Annotations → Annotations
stamp_map clock m =
    if text_at m annot_created == ""
    then GoMap.put annot_created (clock.format_rfc3339 clock.now) m
    else m

module _ {D : Type 0} (clock : Clock) where
  -- `d.Copy()` and the creation time where it is missing
  unfoldable pub stamp : Descriptor D → Descriptor D
  stamp d = record d { annotations = some (stamp_map clock (allocated d.annotations)) }

  -- The time of an entry of the history; 0 is the zero time.
  unfoldable pub history_time : Descriptor D → Bool → ℕ
  history_time d del =
      let created : ℕ =
        if del then 0 else elim (clock.parse_rfc3339 (annotation_val d annot_created)) [
          | none ↦ 0
          | some t ↦ t
        ] in
      if created == 0 then clock.now else created

  unfoldable pub history_entry : Descriptor D → Bool → LayoutHistory D
  history_entry d del = record {
    time = history_time d del;
    deleted = del;
    descriptor = record {
      media_type = d.media_type;
      digest = d.digest;
      size = d.size;
      urls = none;
      annotations = none;
      embedded = none;
      platform = none;
      artifact_type = "";
    };
  }

  unfoldable pub add_history : Descriptor D → Bool → History D → History D
  add_history d del h =
      let tag = annotation_val d annot_ref_name in
      if tag == "" then h else GoMap.put tag (history_of tag h ++ history_entry d del ∷ []) h

  -- The calls of `addHistory` that a `slices.DeleteFunc` makes for the entries that pass.
  unfoldable pub history_removed :
      (Descriptor D → Bool) → List (Descriptor D) → History D → History D
  history_removed p [] h = h
  history_removed p (x ∷ xs) h = history_removed p xs (if p x then add_history x true h else h)
