-- ===== src/Store/Collect/Tests.antt =====
-- A garbage collection of a repository in memory: blob 10 is a tagged image with config 11 and layer
-- 12, and blob 13 is in no manifest.
use olareg.Shared.{
  ℕ, [], ◌∷◌, none, some, Bool, false, ◌≡◌, refl, arith, nat_comparable, string_comparable, Option,
}
use olareg.Shared.Slices.{any, count_p, index_func, get_elem?, delete_func}
use olareg.Types.Error.{ok, err, other, not_found}
use olareg.Types.Descriptor.{Manifest, annotation_val, text_at, annot_ref_name}
use olareg.Types.Tag.{ref_tag_re}
use olareg.Types.MediaType.{oci1_manifest, media_type_image, media_type_index}
use olareg.Types.Layout.{Clock, LayoutIndex}
use olareg.Types.Layout.Operations.{get_desc, get_digest, first_index}
use olareg.Config.{ConfigGc}
use olareg.Store.Mem.{MemRepo, MemRepoBlob, blob_meta, held, blob_list}
use olareg.Store.Tests.{digests, empty_repo, program}
use olareg.Store.Collect.{
  Decoder, bare, is_recent, push_all, add_member, add_members, keep_entry, choose_response, choose,
  mark_choice, mark_entries,
}
use olareg.Store.Collect.Walk.{push_referrer, follow, visit, walk}
use olareg.Store.Collect.Sweep.{prune_index, tidy, sweep_blob, sweep, marks, collect}
use olareg.Store.Collect.Kept
use olareg.Store.Collect.Kept.{peek, mem_store, mem_store-IsStore}
use olareg.Store.Collect.Entries
use olareg.Store.Collect.Fuel
use olareg.Store.Collect.Fuel.{IsBounded, work}

collecting : Unit {0}
unfolding program any count_p index_func get_elem? delete_func annotation_val text_at ref_tag_re
    media_type_image media_type_index get_desc get_digest first_index blob_meta held blob_list
    is_recent push_all add_member add_members keep_entry choose_response choose mark_choice
    mark_entries push_referrer follow visit walk prune_index tidy sweep_blob sweep collect
collecting = tt

abbrev image : Manifest ℕ
image = record {
  schema_version = 2;
  media_type = oci1_manifest;
  artifact_type = "";
  config = bare 11;
  layers = bare 12 ∷ [];
  subject = none;
  annotations = none;
}

abbrev dec : Decoder ℕ
dec = record {
  decode_index = λ bs. err (other "json");
  decode_manifest = λ bs. ok image;
  close = λ bs. none;
}

abbrev clock : Clock
clock = record { now = 7; format_rfc3339 = λ t. "now"; parse_rfc3339 = λ s. none }

abbrev blob : ℕ → Option MemRepoBlob
blob n = some (record { bytes = n ∷ []; meta = record { mod_time = 1 } })

abbrev full : MemRepo ℕ
full = record empty_repo { blobs = (10, blob 1) ∷ (11, blob 2) ∷ (12, blob 3) ∷ (13, blob 4) ∷ [] }

abbrev index : LayoutIndex ℕ
index = record empty_repo.index {
  index = record empty_repo.index.index {
    manifests =
        record (bare 10) {
          media_type = oci1_manifest;
          annotations = some ((annot_ref_name, "v1") ∷ []);
        }
        ∷ [];
  };
}

abbrev gc : ConfigGc
gc = empty_repo.conf.storage.gc

abbrev after : MemRepo ℕ
after = (collect (mem_store digests) digests dec clock gc 9 20 index full).0

runs :
    (peek (mem_store digests) 10 after ≡ ok (1 ∷ []))
    × (peek (mem_store digests) 12 after ≡ ok (3 ∷ []))
    × (peek (mem_store digests) 13 after ≡ err not_found)
unfolding collecting
runs = (refl, refl, refl)

peek-collect_example : peek (mem_store digests) 12 after ≡ ok (3 ∷ [])
unfolding collecting
peek-collect_example =
    Kept.peek-collect (mem_store-IsStore digests) digests dec clock gc 9 20 index 12 full refl

start-IsBounded : IsBounded (mem_store-IsStore digests) dec (10 ∷ 11 ∷ 12 ∷ 13 ∷ []) 0 full
unfolding collecting
start-IsBounded = record {
  covers = λ d bs h. ground arith;
  children = λ d bs man h g. ground arith;
}

manifests-walk_example :
    (walk
      (mem_store digests)
      dec
      5
      (marks (mem_store digests) digests dec clock gc 9 index full)).manifests
    ≡ []
unfolding collecting
manifests-walk_example =
    Fuel.manifests-walk (mem_store-IsStore digests) dec (10 ∷ 11 ∷ 12 ∷ 13 ∷ []) 0 5
      (marks (mem_store digests) digests dec clock gc 9 index full) start-IsBounded (omega arith)

-- An index with an entry that has no blob.
abbrev dangling : LayoutIndex ℕ
dangling = record index {
  index = record index.index { manifests = bare 14 ∷ index.index.manifests };
}

abbrev outcome : LayoutIndex ℕ × Bool
outcome = elim (collect (mem_store digests) digests dec clock gc 9 20 dangling full).1 [
  | ok i ↦ i
  | err _ ↦ (dangling, false)
]

get_digest-collect_example : get_digest 14 outcome.0 ≡ err not_found
unfolding collecting
get_digest-collect_example =
    Entries.get_digest-collect (mem_store digests) digests dec clock gc 9 20 dangling full
      (10 ∷ 11 ∷ 12 ∷ 13 ∷ []) outcome 14 refl refl refl refl
