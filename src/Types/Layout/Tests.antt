-- ===== src/Types/Layout/Tests.antt =====
-- Runs of the index on small inputs, and the theorems at inputs that meet their hypotheses. The
-- digests are numbers here, 0 the zero value, printed in one byte after "sha256:".
use mathlib.Core.Bool.{false≢true}
use olareg.Shared.{
  ℕ, String, [], ◌∷◌, none, some, ◌≡◌, refl, nat_comparable, nat_eqb, ◌==◌, inl, arith,
  string_comparable, ==_iff, if◌then◌else◌,
}
use olareg.Shared.GoMap
use olareg.Shared.Slices.{get_elem?, set, delete_at, index_func, any, delete_func, count_p}
use olareg.Types.Error.{ok, err, not_found, other}
use olareg.Types.Digest.{DigestLib}
use olareg.Types.Descriptor.{
  annot_referrer_subject, Descriptor, annotation_val, annot_ref_name, annot_created, text_at,
}
use olareg.Types.Tag.{ref_tag_re}
use olareg.Types.MediaType.{oci1_manifest, oci1_manifest_list}
use olareg.Types.Layout.{
  Clock, LayoutIndex, apply_opts, layout_with_children, only_created, annotations_empty, drop_tag,
  move_child, move_children, untag_entry, untag_at, untag_loop, untag, compatible, retag_at, place,
  place_referrer,
}
use olareg.Types.Layout.History.{
  allocated, stamp_map, stamp, history_time, history_entry, history_of, add_history,
  history_removed,
}
use olareg.Types.Layout.Operations.{
  insert_desc, add_desc, rm_tagged, rm_digest, rm_desc, strip, first_index, get_digest, get_desc,
}
use olareg.Types.Layout.Tags
use olareg.Types.Layout.Digests
use olareg.Types.Layout.Deletes
use olareg.Types.Layout.Preservation
use olareg.Types.Layout.WellFormed.{WellFormed}

-- What a run of the program opens.
program : Unit {0}
unfolding get_elem? set delete_at index_func any delete_func GoMap.lookup GoMap.put GoMap.delete
    text_at annotation_val ref_tag_re apply_opts layout_with_children only_created annotations_empty
    drop_tag move_child move_children untag_entry untag_at untag_loop untag compatible retag_at
    place place_referrer allocated stamp_map stamp history_time history_entry history_of add_history
    history_removed insert_desc add_desc rm_tagged rm_digest rm_desc strip first_index get_digest
    get_desc
program = tt

abbrev lib : DigestLib ℕ
lib = record {
  zero_digest = 0;
  is_zero = λ d. nat_eqb d 0;
  to_string = λ d. if◌then◌else◌ (nat_eqb d 1) "sha256:1" "sha256:2";
  parse = λ s.
      if◌then◌else◌ (s == "sha256:1") (ok 1)
        (if◌then◌else◌ (s == "sha256:2") (ok 2) (err (other "digest")));
  from_bytes = λ b. ok 1;
}

abbrev clock : Clock
clock = record { now = 7; format_rfc3339 = λ t. "now"; parse_rfc3339 = λ s. none }

abbrev tagged : ℕ → String → Descriptor ℕ
tagged d t = record {
  media_type = oci1_manifest;
  digest = d;
  size = 10;
  urls = none;
  annotations = some ((annot_ref_name, t) ∷ []);
  embedded = none;
  platform = none;
  artifact_type = "";
}

abbrev untagged : ℕ → Descriptor ℕ
untagged d = record (tagged d "") { annotations = none }

abbrev empty : LayoutIndex ℕ
empty = record {
  index = record {
    schema_version = 2;
    media_type = oci1_manifest_list;
    artifact_type = "";
    manifests = [];
    subject = none;
    annotations = none;
  };
  history = [];
  child_manifests = [];
}

-- Digest 1 is tagged v1 and digest 2 latest.
abbrev two : LayoutIndex ℕ
two = add_desc clock (tagged 2 "latest") [] (add_desc clock (tagged 1 "v1") [] empty)

moves :
    (get_desc lib "v1" two
      ≡ ok (record (tagged 1 "v1") {
        annotations = some ((annot_ref_name, "v1") ∷ (annot_created, "now") ∷ []);
      }))
    × (get_desc lib "latest" (rm_desc clock (tagged 2 "latest") two) ≡ err not_found)
unfolding program
moves = (refl, refl)

get_desc-add_desc_ne_example :
    get_desc lib "v1" (add_desc clock (tagged 2 "latest") [] two) ≡ get_desc lib "v1" two
unfolding program
get_desc-add_desc_ne_example =
    Tags.get_desc-add_desc_ne clock (tagged 2 "latest") [] two refl lib "v1" refl
      (λ h. false≢true ((==_iff {A = String} "v1" "latest").1 h))

get_desc-add_desc_self_example :
    (c : Descriptor ℕ) × (get_desc lib "v1" (add_desc clock (tagged 2 "v1") [] two) ≡ ok c)
    × (c.digest ≡ 2)
unfolding program
get_desc-add_desc_self_example =
    Tags.get_desc-add_desc_self clock (tagged 2 "v1") [] two refl lib refl

empty_WellFormed : WellFormed empty.index.manifests
unfolding count_p
empty_WellFormed = record { unique = λ t h. omega arith; lone = λ q h. omega arith }

plain : (d : ℕ) (t : String) → annotation_val (tagged d t) annot_referrer_subject ≡ ""
unfolding program
plain d t = refl

two_WellFormed : WellFormed two.index.manifests
two_WellFormed =
    Preservation.add_desc-WellFormed clock (tagged 2 "latest") []
      (add_desc clock (tagged 1 "v1") [] empty) (inl (plain 2 "latest"))
      (Preservation.add_desc-WellFormed clock (tagged 1 "v1") [] empty (inl (plain 1 "v1"))
        empty_WellFormed)

add_desc-WellFormed_example : WellFormed (add_desc clock (tagged 2 "v1") [] two).index.manifests
add_desc-WellFormed_example =
    Preservation.add_desc-WellFormed clock (tagged 2 "v1") [] two (inl (plain 2 "v1"))
      two_WellFormed

rm_desc-WellFormed_example : WellFormed (rm_desc clock (tagged 2 "latest") two).index.manifests
rm_desc-WellFormed_example =
    Preservation.rm_desc-WellFormed clock (tagged 2 "latest") two two_WellFormed

get_digest-add_desc_example :
    (c : Descriptor ℕ) × (get_digest 1 (add_desc clock (tagged 2 "v1") [] two) ≡ ok c)
    × (c.digest ≡ 1)
unfolding program
get_digest-add_desc_example = Digests.get_digest-add_desc clock (tagged 2 "v1") [] two refl 1 refl

get_digest-rm_desc_example : get_digest 1 (rm_desc clock (untagged 1) two) ≡ err not_found
unfolding program
get_digest-rm_desc_example = Deletes.get_digest-rm_desc clock (untagged 1) two refl

get_desc-rm_desc_example :
    get_desc lib "latest" (rm_desc clock (tagged 2 "latest") two) ≡ err not_found
unfolding program
get_desc-rm_desc_example =
    Deletes.get_desc-rm_desc clock (tagged 2 "latest") two lib two_WellFormed refl refl refl
