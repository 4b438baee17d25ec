-- ===== src/Store/Ingest/Entries.antt =====
-- internal/store/store.go: what `indexIngest` finds in an index, and how it changes the index itself.
use olareg.Shared.{
  ℕ, String, List, [], ◌∷◌, ◌++◌, Option, none, some, Bool, true, false, ◌&&◌, ◌||◌, not,
  Comparable, ◌==◌, string_comparable, nat_eqb, leb, codes, if◌then◌else◌,
}
use olareg.Shared.GoMap
use olareg.Shared.GoMap.{GoMap}
use olareg.Shared.Slices.{length}
use olareg.Types.Digest.{DigestLib, Bytes}
use olareg.Types.Descriptor.{
  Descriptor, Annotations, annotation_at, annotation_val, annot_ref_name, annot_referrer_subject,
  annot_referrer_convert,
}
use olareg.Types.MediaType.{oci1_manifest_list, media_type_index}
use olareg.Types.Layout.{Clock, LayoutIndex, add_children}
use olareg.Types.Layout.Operations.{rm_desc}
use olareg.Store.Collect.{member, add_member}

-- [a-f0-9]
abbrev pub is_hex : ℕ → Bool
is_hex c = leb b'a' c && leb c b'f' || leb b'0' c && leb c b'9'

unfoldable pub all_hex : List ℕ → Bool
all_hex [] = true
all_hex (c ∷ cs) = is_hex c && all_hex cs

-- What follows a prefix.
unfoldable pub after_prefix : List ℕ → List ℕ → Option (List ℕ)
after_prefix [] cs = some cs
after_prefix (p ∷ ps) [] = none
after_prefix (p ∷ ps) (c ∷ cs) = let rest = after_prefix ps cs in if nat_eqb p c then rest else none

abbrev pub is_encoded : Option (List ℕ) → Bool
is_encoded none = false
is_encoded (some cs) = nat_eqb (length cs) 64 && all_hex cs

-- `referrerTagRe.MatchString`
unfoldable pub referrer_tag_re : String → Bool
referrer_tag_re s =
    is_encoded (after_prefix (codes "sha256-") (codes s))
    || is_encoded (after_prefix (codes "sha512-") (codes s))

-- What the loop over the manifests collects.
pub record Entries (D : Type 0) : Type 0 where
  pub seen : List D
  pub scan : List (Descriptor D)
  pub responses : GoMap String (Descriptor D)
  pub tags : List (Descriptor D)

-- `addResp` and `rmDesc`, with the store, the index and `mod`.
pub record Conversion (R D : Type 0) : Type 0 where
  pub store : R
  pub index : LayoutIndex D
  pub modified : Bool
  pub add : GoMap String (List (Descriptor D))
  pub remove : List (Descriptor D)

abbrev pub convert_map : Option Annotations → Annotations
convert_map none = (annot_referrer_convert, "true") ∷ []
convert_map (some m) = GoMap.put annot_referrer_convert "true" m

module _ {D : Type 0} where
  abbrev pub has_map : Descriptor D → Bool
  has_map d = elim d.annotations [ none ↦ false | some _ ↦ true ]

  abbrev pub about_subject : String → Descriptor D → Descriptor D
  about_subject subject d = record d { annotations = some ((annot_referrer_subject, subject) ∷ []) }

  -- The schema version and the media type.
  unfoldable pub set_schema : LayoutIndex D → LayoutIndex D × Bool
  set_schema li = (
    record li { index = record (li.index) { schema_version = 2; media_type = oci1_manifest_list } },
    not (nat_eqb li.index.schema_version 2) || not (li.index.media_type == oci1_manifest_list),
  )

  unfoldable pub set_converted : LayoutIndex D → LayoutIndex D
  set_converted li = record li {
    index = record (li.index) { annotations = some (convert_map li.index.annotations) };
  }

  abbrev pub is_converted : LayoutIndex D → Bool
  is_converted li = annotation_at li.index.annotations annot_referrer_convert == "true"

  abbrev pub list_at : String → GoMap String (List (Descriptor D)) → List (Descriptor D)
  list_at k m = elim (GoMap.lookup k m) [ none ↦ [] | some ds ↦ ds ]

  -- `for refSubj := range refResp { … }`, in the order in which the subjects were met
  unfoldable pub merge_lists :
      DigestLib D
      → GoMap D (List (Descriptor D))
      → GoMap String (List (Descriptor D))
      → GoMap String (List (Descriptor D))
  merge_lists lib [] m = m
  merge_lists lib ((d, ds) ∷ rest) m =
      let k = lib.to_string d in merge_lists lib rest (GoMap.put k (list_at k m ++ ds) m)

module _ {D : Type 0} ⦃e : Comparable D⦄ where
  unfoldable pub mark_entry : Descriptor D → Entries D → Entries D
  mark_entry d m =
      let is_list = d.media_type == oci1_manifest_list && has_map d in
      let subject = annotation_val d annot_referrer_subject in
      record {
        seen = add_member d.digest m.seen;
        scan = if media_type_index d.media_type then m.scan ++ d ∷ [] else m.scan;
        responses =
            if is_list && not (subject == "") then GoMap.put subject d m.responses else m.responses;
        tags =
            if is_list && referrer_tag_re (annotation_val d annot_ref_name)
            then m.tags ++ d ∷ []
            else m.tags;
      }

  unfoldable pub mark_index : List (Descriptor D) → Entries D → Entries D
  mark_index [] m = m
  mark_index (d ∷ ds) m = mark_index ds (mark_entry d m)

  -- The children of an index that were not seen: `index`, `seen` and `scanChildren` after them.
  unfoldable pub load_children :
      List (Descriptor D)
      → LayoutIndex D
      → List D
      → List (Descriptor D)
      → LayoutIndex D × (List D × List (Descriptor D))
  load_children [] li seen queue = (li, (seen, queue))
  load_children (d ∷ ds) li seen queue =
      let next =
        load_children ds (add_children li (d ∷ [])) (add_member d.digest seen)
          (if media_type_index d.media_type then queue ++ d ∷ [] else queue) in
      let rest = load_children ds li seen queue in if member d.digest seen then rest else next

  unfoldable pub remove_tags : Clock → List (Descriptor D) → LayoutIndex D → LayoutIndex D
  remove_tags clock [] li = li
  remove_tags clock (d ∷ ds) li = remove_tags clock ds (rm_desc clock d li)

module _ {D : Type 0} ⦃e : Comparable D⦄ where
  -- A list that is named for the subject already, and is another one.
  abbrev pub other_response : Option (Descriptor D) → Descriptor D → Bool
  other_response none d = false
  other_response (some resp) d = not (resp.digest == d.digest)

  -- The descriptor of a new list.
  abbrev pub list_desc : String → D → Bytes → Descriptor D
  list_desc subject dig raw = about_subject subject (record {
    media_type = oci1_manifest_list;
    digest = dig;
    size = length raw;
    urls = none;
    annotations = none;
    embedded = none;
    platform = none;
    artifact_type = "";
  })
