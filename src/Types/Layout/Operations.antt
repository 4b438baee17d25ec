-- ===== src/Types/Layout/Operations.antt =====
-- `AddDesc`, `GetDesc` and `RmDesc` (types/layout.go), put together from their parts.
use olareg.Shared.{
  String, List, Option, none, some, Bool, true, false, ◌&&◌, not, Comparable, ◌==◌,
  string_comparable, if◌then◌else◌,
}
use olareg.Shared.Slices.{get_elem?, set, index_func, any, delete_func}
use olareg.Types.Error.{not_found, Result, ok, err, ◌>>=◌}
use olareg.Types.Digest.{DigestLib}
use olareg.Types.Descriptor.{Descriptor, annotation_val, annot_ref_name, annot_referrer_subject}
use olareg.Types.Tag.{ref_tag_re}
use olareg.Types.Layout.{
  Clock, LayoutIndex, LayoutIndexOpt, apply_opts, with_manifests, has_tag, has_digest, drop_tag,
  move_children, untag, place, place_referrer,
}
use olareg.Types.Layout.History.{stamp, add_history, history_removed}

module _ {D : Type 0} ⦃e : Comparable D⦄ (clock : Clock) where
  -- `AddDesc` after the copy of the descriptor: its tag and subject are read before the stamp.
  unfoldable pub insert_desc :
      String → String → Descriptor D → List (Descriptor D) → LayoutIndex D → LayoutIndex D
  insert_desc tag referrer d children li =
      let (ms, cs) = move_children children (li.index.manifests, li.child_manifests) in
      let li' : LayoutIndex D = record (with_manifests li ms) {
        child_manifests = delete_func (has_digest d.digest) cs;
      } in
      if not (referrer == "")
      then with_manifests li' (place_referrer referrer d ms)
      else record (with_manifests li' (place tag d (untag tag d.digest ms))) {
        history = add_history clock d false li.history;
      }

  unfoldable pub add_desc : Descriptor D → List (LayoutIndexOpt D) → LayoutIndex D → LayoutIndex D
  add_desc d opts li =
      let children = (apply_opts opts).children in
      insert_desc (annotation_val d annot_ref_name) (annotation_val d annot_referrer_subject)
        (stamp clock d) children li

  -- `RmDesc` of a tagged descriptor
  unfoldable pub rm_tagged : String → D → LayoutIndex D → LayoutIndex D
  rm_tagged tag dig li =
      let ms = li.index.manifests in
      if any (λ c. c.digest == dig && not (has_tag tag c)) ms
      then record (with_manifests li (delete_func (λ c. c.digest == dig && has_tag tag c) ms)) {
        history = history_removed clock (λ c. c.digest == dig && has_tag tag c) ms li.history;
      }
      else elim (index_func (λ c. c.digest == dig && has_tag tag c) ms) [
        | none ↦ li
        | some mi ↦ elim (get_elem? ms mi) [
          | none ↦ li
          | some cur ↦ record (with_manifests li (set ms mi (drop_tag cur))) {
            history = add_history clock cur true li.history;
          }
        ]
      ]

  -- `RmDesc` of an untagged descriptor: all entries and children of the digest
  unfoldable pub rm_digest : D → LayoutIndex D → LayoutIndex D
  rm_digest dig li =
      let ms = li.index.manifests in
      record (with_manifests li (delete_func (has_digest dig) ms)) {
        child_manifests = delete_func (has_digest dig) li.child_manifests;
        history = history_removed clock (has_digest dig) ms li.history;
      }

  unfoldable pub rm_desc : Descriptor D → LayoutIndex D → LayoutIndex D
  rm_desc d li =
      let tag = annotation_val d annot_ref_name in
      if not (tag == "") then rm_tagged tag d.digest li else rm_digest d.digest li

module _ {D : Type 0} where
  -- The descriptor that `GetDesc` returns for a digest: without annotations.
  unfoldable pub strip : Descriptor D → Descriptor D
  strip c = record {
    media_type = c.media_type;
    digest = c.digest;
    size = c.size;
    urls = none;
    annotations = none;
    embedded = none;
    platform = none;
    artifact_type = "";
  }

module _ {D : Type 0} ⦃e : Comparable D⦄ where
  -- `slices.IndexFunc` and the element at the index
  unfoldable pub first_index : (Descriptor D → Bool) → List (Descriptor D) → Option (Descriptor D)
  first_index p ms = elim (index_func p ms) [ none ↦ none | some mi ↦ get_elem? ms mi ]

  unfoldable pub get_digest : D → LayoutIndex D → Result (Descriptor D)
  get_digest dig li = elim (first_index (has_digest dig) li.index.manifests) [
    | some c ↦ ok (strip c)
    | none ↦ elim (first_index (has_digest dig) li.child_manifests) [
      | some c ↦ ok (strip c)
      | none ↦ err not_found
    ]
  ]

  unfoldable pub get_desc : DigestLib D → String → LayoutIndex D → Result (Descriptor D)
  get_desc lib arg li =
      if ref_tag_re arg
      then elim (first_index (has_tag arg) li.index.manifests) [
        | some c ↦ ok c
        | none ↦ err not_found
      ]
      else do dig ← lib.parse arg; get_digest dig li
