-- ===== src/Blobs/Handlers.antt =====
-- blob.go: the handlers. One takes the error of `RepoGet`, if it has one, and the repository with its
-- uploads, and returns them with the answer. The mount works on the registry, which has every
-- repository as `RepoGet` makes or finds it. Building a location and encoding a state do not fail.
use olareg.Shared.{
  ℕ, String, List, [], ◌∷◌, Option, none, some, Bool, ◌&&◌, not, Comparable, ◌==◌,
  string_comparable, nat_eqb, if◌then◌else◌,
}
use olareg.Shared.Slices.{get_elem?}
use olareg.Types.Error.{Error, Result, ok, err, not_found}
use olareg.Types.Digest.{Bytes}
use olareg.Config.{Config}
use olareg.Store.Mem.{MemRepo, is_set, blob_get, blob_delete, blob_session}
use olareg.Store.Upload.{
  MemRepoUpload, size, cancel, write, digest, change_algorithm, verify, close,
}
use olareg.Store.System.{System, with_repo, with_upload}
use olareg.Response.{Failure, failure, bare_failure, repo_failure}
use olareg.Blobs.{
  BlobLib, Body, Reply, failed, content, accepted, no_content, created, progress, range_invalid,
  range_end, equals_size, blob_valid_range,
}

-- The answer to an error of `BlobGet` and `BlobDelete`.
unfoldable pub blob_failure : Error → Failure
blob_failure not_found = failure 404 "BLOB_UNKNOWN"
blob_failure _ = bare_failure 500

abbrev pub digest_invalid : Failure
digest_invalid = failure 400 "DIGEST_INVALID"

abbrev pub upload_invalid : Failure
upload_invalid = failure 400 "BLOB_UPLOAD_INVALID"

abbrev pub denied : Failure
denied = failure 403 "DENIED"

module _ {D A : Type 0} ⦃e : Comparable D⦄ ⦃f : Comparable A⦄ (lib : BlobLib D A) where
  unfoldable pub serve_blob : String → Option Error → System D A → System D A × Reply D
  serve_blob arg opened s = elim (lib.writer.digests.parse arg) [
    | err _ ↦ (s, failed digest_invalid)
    | ok d ↦ elim opened [
      | some x ↦ (s, failed (repo_failure x))
      | none ↦
          let r = blob_get lib.writer.digests d s.repo in
          (with_repo r.0 s, elim r.1 [ ok bs ↦ content d bs | err x ↦ failed (blob_failure x) ])
    ]
  ]

  unfoldable pub delete_blob :
      Config → ℕ → String → Option Error → System D A → System D A × Reply D
  delete_blob conf now arg opened s =
      if is_set conf.storage.read_only
      then (s, failed denied)
      else (elim (lib.writer.digests.parse arg) [
        | err _ ↦ (s, failed digest_invalid)
        | ok d ↦ elim opened [
          | some x ↦ (s, failed (repo_failure x))
          | none ↦
              let r = blob_delete lib.writer.digests now d s.repo in
              (with_repo r.0 s, elim r.1 [ none ↦ accepted | some x ↦ failed (blob_failure x) ])
        ]
      ])

-- An address of the cache that the heap does not have is no session; there is none.
module _ {D A : Type 0} ⦃e : Comparable D⦄ where
  unfoldable pub find_session :
      ℕ → String → System D A → System D A × Result (ℕ × MemRepoUpload D A)
  find_session now id s =
      let r = blob_session now id s.repo in
      (
        with_repo r.0 s,
        elim r.1 [
          | err x ↦ err x
          | ok ref ↦ elim (get_elem? s.heap ref) [ none ↦ err not_found | some u ↦ ok (ref, u) ]
        ],
      )

  -- What the handlers of a session do first.
  unfoldable pub on_session :
      ℕ
      → String
      → Option Error
      → System D A
      → (ℕ → MemRepoUpload D A → System D A → System D A × Reply D)
      → System D A × Reply D
  on_session now id opened s handle = elim opened [
    | some x ↦ (s, failed (repo_failure x))
    | none ↦
        let r = find_session now id s in
        elim r.1 [
          | err _ ↦ (r.0, failed (failure 400 "BLOB_UPLOAD_UNKNOWN"))
          | ok (ref, u) ↦ handle ref u r.0
        ]
  ]

  -- The repository and the upload go back to where they stand.
  abbrev pub put_back : ℕ → MemRepo D × MemRepoUpload D A → System D A → System D A
  put_back ref r s = with_upload ref r.1 (with_repo r.0 s)

  unfoldable pub cancel_upload : ℕ → String → Option Error → System D A → System D A × Reply D
  cancel_upload now id opened s = on_session now id opened s (λ ref u s.
      let r = cancel s.repo u in
      (with_repo r.0 s, elim r.1 [ none ↦ no_content | some _ ↦ failed (bare_failure 500) ]))

  -- `io.Copy(bc, r.Body)`: the writes until one fails, and then the error of the body.
  unfoldable pub copy_chunks :
      List (ℕ × Bytes)
      → MemRepo D
      → MemRepoUpload D A
      → (MemRepo D × MemRepoUpload D A) × Option Error
  copy_chunks [] mr u = ((mr, u), none)
  copy_chunks ((now, p) ∷ rest) mr u =
      let r = write now p mr u in
      elim r.1 [ err x ↦ (r.0, some x) | ok _ ↦ copy_chunks rest r.0.0 r.0.1 ]

  unfoldable pub copy :
      Body → MemRepo D → MemRepoUpload D A → (MemRepo D × MemRepoUpload D A) × Option Error
  copy body mr u =
      let r = copy_chunks body.chunks mr u in
      elim r.1 [ some x ↦ (r.0, some x) | none ↦ (r.0, body.error) ]

module _ {D A : Type 0} ⦃e : Comparable D⦄ (lib : BlobLib D A) where
  unfoldable pub upload_status : ℕ → String → Option Error → System D A → System D A × Reply D
  upload_status now id opened s =
      on_session now id opened s
        (λ ref u s. (s, progress 204 (lib.encode_state (size u)) (range_end (size u))))

  -- The state of the request names the bytes that the upload has.
  unfoldable pub valid_state : String → MemRepoUpload D A → Bool
  valid_state state u = equals_size (lib.decode_state state) (size u)

  -- `blobUploadPatch` once the range and the state are checked.
  unfoldable pub append_chunk : Body → ℕ → MemRepoUpload D A → System D A → System D A × Reply D
  append_chunk body ref u s =
      let r = copy body s.repo u in
      (
        put_back ref r.0 s,
        elim r.1 [
          | some _ ↦ failed (bare_failure 500)
          | none ↦ progress 202 (lib.encode_state (size r.0.1)) (range_end (size r.0.1))
        ],
      )

  -- `blobUploadPatch`; `range` is the header `content-range`.
  unfoldable pub patch_upload :
      ℕ → String → String → String → Body → Option Error → System D A → System D A × Reply D
  patch_upload now id range state body opened s = on_session now id opened s (λ ref u s.
      if not (blob_valid_range range (size u))
      then (s, range_invalid (range_end (size u)))
      else if not (valid_state state u)
      then (s, failed upload_invalid)
      else append_chunk body ref u s)

module _ {D A : Type 0} ⦃e : Comparable D⦄ ⦃f : Comparable A⦄ (lib : BlobLib D A) where
  -- The content is verified and stored under d, or the upload is cancelled.
  unfoldable pub finish_upload : ℕ → D → ℕ → MemRepoUpload D A → System D A → System D A × Reply D
  finish_upload now d ref u s =
      let v = verify lib.writer d u in
      let closed = close lib.writer now s.repo v.0 in
      elim v.1 [
        | some _ ↦ (put_back ref ((cancel s.repo v.0).0, v.0) s, failed upload_invalid)
        | none ↦ (
          put_back ref (closed.0, v.0) s,
          elim closed.1 [ some _ ↦ failed (bare_failure 500) | none ↦ created d ],
        )
      ]

  -- The copy of the body, and what follows it.
  unfoldable pub store_body :
      ℕ → Body → D → ℕ → MemRepoUpload D A → System D A → System D A × Reply D
  store_body now body d ref u s =
      let r = copy body s.repo u in
      elim r.1 [
        | some _ ↦ (put_back ref r.0 s, failed (bare_failure 500))
        | none ↦ finish_upload now d ref r.0.1 (put_back ref r.0 s)
      ]

  -- An empty upload takes the algorithm of the digest, if it can.
  unfoldable pub match_algorithm : D → MemRepoUpload D A → MemRepoUpload D A
  match_algorithm d u =
      if nat_eqb (size u) 0
        && not (lib.writer.algorithm d == lib.writer.algorithm (digest lib.writer u))
      then (change_algorithm lib.writer (lib.writer.algorithm d) u).0
      else u

  -- `blobUploadPut`; `later` is the time of the call of `Close`.
  unfoldable pub put_upload :
      ℕ
      → ℕ
      → String
      → String
      → String
      → String
      → Body
      → Option Error
      → System D A
      → System D A × Reply D
  put_upload now later id range dig state body opened s = on_session now id opened s (λ ref u s.
      if not (blob_valid_range range (size u))
      then (s, range_invalid (range_end (size u)))
      else (elim (lib.writer.digests.parse dig) [
        | err _ ↦ (s, failed digest_invalid)
        | ok d ↦
            let u' = match_algorithm d u in
            if not (valid_state lib state u')
            then (with_upload ref u' s, failed upload_invalid)
            else store_body later body d ref u' (with_upload ref u' s)
      ]))
