-- ===== src/Store/Collect.antt =====
-- internal/store/store.go: the garbage collection of a repository, over the operations of a store.
pub mod Walk
pub mod Sweep
pub mod Kept
pub mod Fuel
pub mod Entries
mod Tests
use olareg.Shared.{
  ℕ, zero, suc, ◌+◌, String, List, [], ◌∷◌, Option, none, some, Bool, true, false, not, ◌&&◌, ◌||◌,
  Comparable, ◌==◌, string_comparable, ltb, if◌then◌else◌,
}
use olareg.Shared.GoMap
use olareg.Shared.GoMap.{GoMap}
use olareg.Shared.Int.{ℤ, pos, negsuc, is_nonneg}
use olareg.Shared.Slices.{any}
use olareg.Types.Error.{Error, Result, ok, err}
use olareg.Types.Digest.{DigestLib, Bytes}
use olareg.Types.Descriptor.{
  Descriptor, Index, Manifest, annotation_val, annot_ref_name, annot_referrer_subject,
}
use olareg.Types.MediaType.{media_type_index, media_type_image}
use olareg.Types.Layout.{Clock, LayoutIndex}
use olareg.Types.Layout.Operations.{get_desc, rm_desc}
use olareg.Config.{ConfigGc}
use olareg.Store.{BlobMeta}
use olareg.Store.Mem.{is_set}

-- The internal operations of the interface Repo, on the state `R` of a store.
pub record Repo (R D : Type 0) : Type 0 where
  pub get : D → R → R × Result Bytes
  pub meta : D → R → R × Result BlobMeta
  pub list : R → Result (List D)
  pub remove : ℕ → D → R → R × Option Error

-- `json.NewDecoder(br).Decode` into an Index and a Manifest, with the error of the reader's Close, and `br.Close()`.
pub record Decoder (D : Type 0) : Type 0 where
  pub decode_index : Bytes → Result (Index D)
  pub decode_manifest : Bytes → Result (Manifest D)
  pub close : Bytes → Option Error

-- What the first loop finds for an entry: it is kept, kept if its subject is, or left to the walk.
pub data Choice (D : Type 0) : Type 0 where
  kept : Choice D
  with_subject : D → Choice D
  left : Choice D

-- The maps `inIndex`, `seen` and `blobExists` are lists without repetition.
pub record Marks (R D : Type 0) : Type 0 where
  pub repo : R
  pub manifests : List (Descriptor D)
  pub subjects : GoMap D (Descriptor D)
  pub in_index : List D
  pub seen : List D

-- `GracePeriod >= 0 && meta.modified.After(cutoff)`, with the cutoff a grace period before `now`
unfoldable pub is_recent : ConfigGc → ℕ → BlobMeta → Bool
is_recent conf now m = elim conf.grace_period [
  | pos g ↦ ltb now (m.mod_time + g)
  | negsuc _ ↦ false
]

abbrev pub recent_meta : ConfigGc → ℕ → Result BlobMeta → Bool
recent_meta conf now (ok m) = is_recent conf now m
recent_meta conf now (err _) = false

abbrev pub is_ok {ℓ} : {A : Type ℓ} → Result A → Bool
is_ok (ok _) = true
is_ok (err _) = false

abbrev pub parse_or_zero : {D : Type 0} → DigestLib D → Result D → D
parse_or_zero lib (ok d) = d
parse_or_zero lib (err _) = lib.zero_digest

-- `types.Descriptor{Digest: d}`
abbrev pub bare : {D : Type 0} → D → Descriptor D
bare d = record {
  media_type = "";
  digest = d;
  size = 0;
  urls = none;
  annotations = none;
  embedded = none;
  platform = none;
  artifact_type = "";
}

-- Appending to the slice of manifests, which is read from its tail: here the list starts there.
unfoldable pub push_all {ℓ} : {A : Type ℓ} → List A → List A → List A
push_all [] stack = stack
push_all (x ∷ xs) stack = push_all xs (x ∷ stack)

module _ {D : Type 0} ⦃e : Comparable D⦄ where
  abbrev pub member : D → List D → Bool
  member d ds = any (λ x. x == d) ds

  -- `m[d] = true`
  unfoldable pub add_member : D → List D → List D
  add_member d ds = if member d ds then ds else d ∷ ds

  unfoldable pub add_members : List (Descriptor D) → List D → List D
  add_members [] ds = ds
  add_members (x ∷ xs) ds = add_members xs (add_member x.digest ds)

module _ {R D : Type 0} ⦃e : Comparable D⦄ where
  unfoldable pub mark_choice : Descriptor D → Choice D → Marks R D → Marks R D
  mark_choice d kept m = record m { manifests = d ∷ m.manifests }
  mark_choice d (with_subject dig) m = record m { subjects = GoMap.put dig d m.subjects }
  mark_choice d left m = m

module _ {R D : Type 0} ⦃e : Comparable D⦄ (repo : Repo R D) (lib : DigestLib D) (conf : ConfigGc)
    (now : ℕ) where
  -- The tests for a tag and for a new blob.
  unfoldable pub keep_entry : Descriptor D → R → R × Bool
  keep_entry d r =
      let r' = repo.meta d.digest r in
      if not (is_set conf.untagged) || not (annotation_val d annot_ref_name == "")
      then (r, true)
      else if is_nonneg conf.grace_period
      then (r'.0, recent_meta conf now r'.1)
      else (r, false)

  -- The tests on a referrers response, for a subject of digest `dig`.
  unfoldable pub choose_response : Descriptor D → D → Choice D → R → R × Choice D
  choose_response d dig choice r =
      let r' = repo.meta dig r in
      let subj_exists = not (lib.is_zero dig) && is_ok r'.1 in
      let own = repo.meta d.digest r'.0 in
      if is_set conf.referrers_with_subj && subj_exists
      then (r'.0, with_subject dig)
      else if not (is_set conf.referrers_dangling)
      then (r'.0, kept)
      else if subj_exists
      then (own.0, if recent_meta conf now own.1 then kept else with_subject dig)
      else (r'.0, choice)

  unfoldable pub choose : Descriptor D → R → R × Choice D
  choose d r =
      let (r', keep) = keep_entry d r in
      let choice : Choice D = if keep then kept else left in
      let subject = annotation_val d annot_referrer_subject in
      if subject == ""
      then (r', choice)
      else choose_response d (parse_or_zero lib (lib.parse subject)) choice r'

  -- `for _, d := range index.Manifests { … }`
  unfoldable pub mark_entries : List (Descriptor D) → Marks R D → Marks R D
  mark_entries [] m = m
  mark_entries (d ∷ ds) m =
      let r = choose d m.repo in
      mark_entries ds
        (mark_choice d r.1 (record m { repo = r.0; in_index = add_member d.digest m.in_index }))
