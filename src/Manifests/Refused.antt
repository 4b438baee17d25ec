-- ===== src/Manifests/Refused.antt =====
-- What `manifestPut` changes where it refuses a manifest, and what it has checked where it does not
-- (manifest.go).
use olareg.Shared.{
  String, List, [], ◌∷◌, Option, none, some, Bool, true, false, ◌≡◌, refl, ◌∙◌, Comparable,
  string_comparable, ltb, arith, Bool-cases, inl, inr, ◌⊎◌, Sum-cases,
}
use olareg.Types.Error.{Error, Result-cases}
use olareg.Types.Digest.{Bytes}
use olareg.Types.MediaType.{media_type_image, media_type_index}
use olareg.Config.{Config}
use olareg.Store.Mem.{blob_get, load, load_file, is_set}
use olareg.Store.Reads.{read}
use olareg.Store.System.{System, with_repo}
use olareg.Blobs.Mounts.{read-blob_get}
use olareg.Manifests.{
  ManifestLib, PutRequest, Reply, failed, missing_blobs, Checked, parse_put, read_put,
}
use olareg.Manifests.Check.{
  missing, image_blobs, index_blobs, manifest_verify_image, manifest_verify_index, unless_missing,
  check_image, check_index, check_content,
}
use olareg.Manifests.Put.{PutTimes, finish_put, store_put, put_checked, type_of, manifest_put}

module _ {D A : Type 0} ⦃e : Comparable D⦄ ⦃f : Comparable A⦄ (lib : ManifestLib D A) where
  -- The index is the same, and every digest reads as before.
  pub record Quiet (old new : System D A) : Type 0 where
    pub index : new.repo.index ≡ old.repo.index
    pub reads :
        (j : D)
        → read lib.blobs.writer.digests j new.repo ≡ read lib.blobs.writer.digests j old.repo

  still : (s : System D A) → Quiet s s
  still s = record { index = refl; reads = λ j. refl }

  Quiet-get :
      (d : D) (s : System D A)
      → Quiet s (with_repo (blob_get lib.blobs.writer.digests d s.repo).0 s)
  unfolding blob_get load load_file
  Quiet-get d s = record {
    index = ground arith;
    reads = λ j. read-blob_get lib.blobs.writer.digests d j s.repo;
  }

  both : (a b c : System D A) → Quiet a b → Quiet b c → Quiet a c
  both a b c p q = record { index = q.index ∙ p.index; reads = λ j. q.reads j ∙ p.reads j }

  Quiet-missing : (ds : List D) (s : System D A) → Quiet s (missing lib ds s).0
  unfolding missing
  Quiet-missing [] s = still s
  Quiet-missing (d ∷ ds) s =
      let s' = with_repo (blob_get lib.blobs.writer.digests d s.repo).0 s in
      both s s' (missing lib ds s').0 (Quiet-get d s) (Quiet-missing ds s')

  Quiet-image :
      (conf : Config) (mt : String) (raw : Bytes) (d : D) (s : System D A)
      → Quiet s (check_image lib conf mt raw d s).0
  unfolding check_image manifest_verify_image
  Quiet-image conf mt raw d s = elim (Result-cases (lib.json.decode_manifest raw)) [
    | inl (x, q) ↦ rw (q, check_image) (still s)
    | inr (m, q) ↦ elim (Bool-cases (is_set conf.api.manifest.sparse_image)) [
      | inl k ↦ rw (q, k, check_image) (still s)
      | inr k ↦ rw (q, k, check_image) (Quiet-missing (image_blobs m) s)
    ]
  ]

  Quiet-list :
      (conf : Config) (mt : String) (raw : Bytes) (d : D) (s : System D A)
      → Quiet s (check_index lib conf mt raw d s).0
  unfolding check_index manifest_verify_index
  Quiet-list conf mt raw d s = elim (Result-cases (lib.json.decode_index raw)) [
    | inl (x, q) ↦ rw (q, check_index) (still s)
    | inr (i, q) ↦ elim (Bool-cases (is_set conf.api.manifest.sparse_index)) [
      | inl k ↦ rw (q, k, check_index) (still s)
      | inr k ↦ rw (q, k, check_index) (Quiet-missing (index_blobs i.manifests) s)
    ]
  ]

  pub Quiet-check :
      (conf : Config) (mt : String) (raw : Bytes) (d : D) (s : System D A)
      → Quiet s (check_content lib conf mt raw d s).0
  unfolding check_content
  Quiet-check conf mt raw d s = elim (Bool-cases (media_type_image mt)) [
    | inl k ↦ rw (k, check_content) (Quiet-image conf mt raw d s)
    | inr k ↦ elim (Bool-cases (media_type_index mt)) [
      | inl g ↦ rw (k, g, check_content) (Quiet-list conf mt raw d s)
      | inr g ↦ rw (k, g, check_content) (still s)
    ]
  ]

  -- An answer that blames the request.
  abbrev pub blames : Reply D → Bool
  blames (failed f) = ltb f.status 500
  blames (missing_blobs ds) = true
  blames _ = false

  -- A check that fails blames the request.
  pub check-blames :
      (conf : Config) (mt : String) (raw : Bytes) (d : D) (s : System D A) (reply : Reply D)
      → (check_content lib conf mt raw d s).1 ≡ inl reply
      → blames reply ≡ true
  unfolding check_content check_image check_index unless_missing
  check-blames conf mt raw d s reply h = ground arith

  blames-store :
      (times : PutTimes) (mt : String) (tags : List String) (raw : Bytes) (d : D) (c : Checked D)
      (s : System D A)
      → blames (store_put lib times mt tags raw d c s).1 ≡ false
  unfolding store_put finish_put
  blames-store times mt tags raw d c s = ground arith

  Quiet-checked :
      (times : PutTimes) (mt : String) (tags : List String) (raw : Bytes) (d : D) (s : System D A)
      (r : System D A × (Reply D ⊎ Checked D))
      → Quiet s r.0
      → blames (put_checked lib times mt tags raw d r).1 ≡ true
      → Quiet s (put_checked lib times mt tags raw d r).0
  unfolding put_checked
  Quiet-checked times mt tags raw d s (s', inl reply) q h = q
  Quiet-checked times mt tags raw d s (s', inr c) q h =
      ground (arith, blames-store times mt tags raw d c s')

  -- A manifest that is refused with a status below 500, whether for its headers, its digest, its content
  -- or for a blob that is missing, leaves the index as it was, and every read of a blob.
  pub manifest_put-refused :
      (conf : Config) (times : PutTimes) (arg : String) (r : PutRequest) (opened : Option Error)
      (s : System D A)
      → blames (manifest_put lib conf times arg r opened s).1 ≡ true
      → Quiet s (manifest_put lib conf times arg r opened s).0
  unfolding manifest_put
  manifest_put-refused conf times arg r (some x) s h =
      elim (Bool-cases (is_set conf.storage.read_only)) [
        | inl k ↦ rw (k, manifest_put) (still s)
        | inr k ↦ rw (k, manifest_put) (still s)
      ]
  manifest_put-refused conf times arg r none s h =
      elim (Bool-cases (is_set conf.storage.read_only)) [
        | inl k ↦ rw (k, manifest_put) (still s)
        | inr k ↦ elim (Sum-cases (parse_put lib conf arg r)) [
          | inl (x, q) ↦ rw (k, q, manifest_put) (still s)
          | inr (t, q) ↦ elim (Sum-cases (read_put lib conf t.expect r)) [
            | inl (x, g) ↦ rw (k, q, g, manifest_put) (still s)
            | inr ((raw, d), g) ↦
                let mt = type_of lib t.media_type raw in
                rw (k, q, g, manifest_put)
                  (Quiet-checked times mt t.tags raw d s (check_content lib conf mt raw d s)
                    (Quiet-check conf mt raw d s) (ground arith))
          ]
        ]
      ]
