-- ===== src/Referrers.antt =====
-- referrer.go: the list of the referrers of a subject, which is an index in the store of blobs that
-- an entry of the top index names by the subject. Here is how a list is filtered, split and changed.
pub mod Parts
pub mod Pages
pub mod Serve
pub mod Entries
pub mod Written
pub mod Lists
pub mod Tests
use olareg.Shared.{
  ℕ, zero, suc, ◌+◌, String, List, [], ◌∷◌, ◌++◌, Option, none, some, Bool, true, false, ◌&&◌, not,
  Comparable, ◌==◌, string_comparable, if◌then◌else◌,
}
use olareg.Shared.Int.{ℤ, exceeds}
use olareg.Shared.Slices.{length, get_elem?, set, index_func, delete_func}
use olareg.Types.Error.{Error, Result, ok, err, not_found, ◌>>=◌}
use olareg.Types.Digest.{Bytes}
use olareg.Types.Descriptor.{Descriptor, Index, annot_referrer_subject}
use olareg.Types.Json.{Json}
use olareg.Types.MediaType.{oci1_manifest_list}
use olareg.Types.Referrer.{get_by_annotation}
use olareg.Types.Layout.{Clock, has_digest, layout_with_children}
use olareg.Store.Mem.{blob_get, index_insert}
use olareg.Store.System.{System, with_repo}
use olareg.Blobs.{BlobLib}
use olareg.Blobs.Posts.{Start}
use olareg.Documents.{push_document}

-- The page that is complete, if there is one that fits.
abbrev pub flush : ℤ → Bytes → List Bytes
flush limit [] = []
flush limit (b ∷ bs) = if exceeds (length (b ∷ bs)) limit then [] else (b ∷ bs) ∷ []

module _ {D : Type 0} where
  abbrev pub with_entries : Index D → List (Descriptor D) → Index D
  with_entries i ds = record i { manifests = ds }

  unfoldable pub of_type : String → List (Descriptor D) → List (Descriptor D)
  of_type artifact_type [] = []
  of_type artifact_type (d ∷ ds) =
      let rest = of_type artifact_type ds in
      if d.artifact_type == artifact_type then d ∷ rest else rest

  unfoldable pub referrer_filter : Json D → Bytes → String → Result Bytes
  referrer_filter json in_bytes filter =
      json.decode_index in_bytes
      >>= (λ i. json.encode_index (with_entries i (of_type filter i.manifests)))

  -- Pages that come before the others, and an entry that is too large for any.
  unfoldable pub prepend :
      List Bytes
      → List (Descriptor D)
      → Result (List Bytes × List (Descriptor D))
      → Result (List Bytes × List (Descriptor D))
  prepend pages errs (err x) = err x
  prepend pages errs (ok (rest, more)) = ok (pages ++ rest, errs ++ more)

  -- The loop of `referrerSplit`, on the entries that are left, with `cur.Manifests` and `last`: the
  -- pages, and the entries that are too large, for each of which it has an error.
  unfoldable pub split_loop :
      Json D
      → ℤ
      → Index D
      → List (Descriptor D)
      → List (Descriptor D)
      → Bytes
      → Result (List Bytes × List (Descriptor D))
  split_loop json limit i [] cur last = ok (flush limit last, [])
  split_loop json limit i (d ∷ ds) cur last =
      elim (json.encode_index (with_entries i (cur ++ d ∷ []))) [
        | err x ↦ err x
        | ok next ↦ elim (exceeds (length next) limit) [
          | false ↦ split_loop json limit i ds (cur ++ d ∷ []) next
          | true ↦ elim (json.encode_index (with_entries i (d ∷ []))) [
            | err x ↦ err x
            | ok one ↦ elim (exceeds (length one) limit) [
              | true ↦ prepend (flush limit last) (d ∷ []) (split_loop json limit i ds [] [])
              | false ↦ prepend (flush limit last) [] (split_loop json limit i ds (d ∷ []) one)
            ]
          ]
        ]
      ]

  unfoldable pub referrer_split : Json D → Bytes → ℤ → Result (List Bytes × List (Descriptor D))
  referrer_split json in_bytes limit =
      json.decode_index in_bytes >>= (λ i. split_loop json limit i i.manifests [] [])

  -- `types.Index{SchemaVersion: 2, MediaType: types.MediaTypeOCI1ManifestList}`
  abbrev pub empty_response : Index D
  empty_response = record {
    schema_version = 2;
    media_type = oci1_manifest_list;
    artifact_type = "";
    manifests = [];
    subject = none;
    annotations = none;
  }

  -- The descriptor of a list of referrers in the top index.
  abbrev pub response_desc : String → D → Bytes → Descriptor D
  response_desc subject dig raw = record {
    media_type = oci1_manifest_list;
    digest = dig;
    size = length raw;
    urls = none;
    annotations = some ((annot_referrer_subject, subject) ∷ []);
    embedded = none;
    platform = none;
    artifact_type = "";
  }

module _ {D : Type 0} ⦃e : Comparable D⦄ where
  -- The entry of the same digest is replaced, or a new one is appended.
  unfoldable pub replace_or_append : Descriptor D → List (Descriptor D) → List (Descriptor D)
  replace_or_append d ds = elim (index_func (has_digest d.digest) ds) [
    | none ↦ ds ++ d ∷ []
    | some mi ↦ set ds mi d
  ]

-- The times of the store and of `IndexInsert`, and what a new upload needs.
pub record Update : Type 0 where
  pub start : Start
  pub clock : Clock
  pub now : ℕ

module _ {D A : Type 0} ⦃e : Comparable D⦄ (lib : BlobLib D A) (json : Json D) where
  -- What `referrerAdd` and `referrerDelete` end with: the list is stored, and named in the index.
  unfoldable pub store_response : Update → D → Index D → System D A → System D A × Option Error
  store_response up subject resp s = elim (json.encode_index resp) [
    | err x ↦ (s, some x)
    | ok raw ↦ elim (lib.writer.digests.from_bytes raw) [
      | err x ↦ (s, some x)
      | ok dig ↦
          let pushed = push_document lib up.start dig raw s in
          let desc = response_desc (lib.writer.digests.to_string subject) dig raw in
          let inserted =
            index_insert up.clock up.now desc (layout_with_children resp.manifests ∷ [])
              pushed.0.repo in
          elim pushed.1 [
            | some x ↦ (pushed.0, some x)
            | none ↦ (with_repo inserted.0 pushed.0, inserted.1)
          ]
    ]
  ]

  -- What the old list leaves in the new one: an error leaves the empty response.
  unfoldable pub old_response : Result Bytes → Index D
  old_response (err _) = empty_response
  old_response (ok raw) = json.fill_index raw empty_response

  -- The old list of `referrerAdd`.
  unfoldable pub read_response : D → System D A → System D A × Index D
  read_response subject s =
      elim (get_by_annotation annot_referrer_subject (lib.writer.digests.to_string subject)
        s.repo.index.index) [
          | err _ ↦ (s, empty_response)
          | ok old ↦
              let r = blob_get lib.writer.digests old.digest s.repo in
              (with_repo r.0 s, old_response r.1)
        ]

  unfoldable pub referrer_add : Update → D → Descriptor D → System D A → System D A × Option Error
  referrer_add up subject desc s =
      let r = read_response subject s in
      store_response up subject (with_entries r.1 (replace_or_append desc r.1.manifests)) r.0

  -- `referrerDelete` once the old list is found: its content is read, changed and stored.
  unfoldable pub remove_referrer :
      Update → D → Descriptor D → Result Bytes → System D A → System D A × Option Error
  remove_referrer up subject desc (err x) s = (s, some x)
  remove_referrer up subject desc (ok raw) s = elim (json.decode_index raw) [
    | err x ↦ (s, some x)
    | ok resp ↦
        store_response up subject
          (with_entries resp (delete_func (has_digest desc.digest) resp.manifests)) s
  ]

  unfoldable pub referrer_delete :
      Update → D → Descriptor D → System D A → System D A × Option Error
  referrer_delete up subject desc s =
      elim (get_by_annotation annot_referrer_subject (lib.writer.digests.to_string subject)
        s.repo.index.index) [
          | err not_found ↦ (s, none)
          | err x ↦ (s, some x)
          | ok old ↦
              let r = blob_get lib.writer.digests old.digest s.repo in
              remove_referrer up subject desc r.1 (with_repo r.0 s)
        ]
