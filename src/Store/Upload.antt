-- ===== src/Store/Upload.antt =====
-- internal/store/mem.go: an upload into a repository in memory. An operation takes the repository
-- and the upload, a value here, and returns both where it changes both. `Writer.Write` appends to
-- the buffer and to what the hash has read.
use olareg.Shared.{
  ℕ, String, List, [], ◌∷◌, ◌++◌, Option, none, some, Bool, ◌&&◌, not, Comparable, ◌==◌,
  string_comparable, if◌then◌else◌,
}
use olareg.Shared.GoMap
use olareg.Shared.Slices.{length}
use olareg.Types.Error.{Error, Result, ok, err, other, read_only, blob_exists}
use olareg.Types.Digest.{Bytes}
use olareg.Cache
use olareg.Store.{WriterLib, BlobConfig, BlobOpt, blob_opts}
use olareg.Store.Mem.{
  MemRepo, MemRepoBlob, is_read_only, with_uploads, with_session, with_blobs, stamped, has_blob,
}

pub record Writer (A : Type 0) : Type 0 where
  pub algo : A
  pub hashed : Bytes

pub record MemRepoUpload (D A : Type 0) : Type 0 where
  pub buffer : Bytes
  pub alg : A
  pub w : Writer A
  pub expect : D
  pub session_id : String

module _ {D A : Type 0} where
  abbrev pub writer_digest : WriterLib D A → MemRepoUpload D A → Result D
  writer_digest lib u = lib.sum u.w.algo u.w.hashed

  abbrev pub writer_verify : WriterLib D A → D → MemRepoUpload D A → Bool
  writer_verify lib d u = lib.verify u.w.algo u.w.hashed d

  -- `digest.NewWriter(mru.buffer, a)`: the hash has read nothing, whatever the buffer holds.
  abbrev pub new_writer : A → MemRepoUpload D A → MemRepoUpload D A
  new_writer a u = record u { alg = a; w = record { algo = a; hashed = [] } }

  unfoldable pub size : MemRepoUpload D A → ℕ
  size u = length u.buffer

  abbrev pub upload_blob : ℕ → MemRepoUpload D A → MemRepoBlob
  upload_blob now u = record { bytes = u.buffer; meta = record { mod_time = now } }

  unfoldable pub cancel : MemRepo D → MemRepoUpload D A → MemRepo D × Option Error
  cancel mr u = let r = Cache.delete u.session_id mr.uploads in (with_uploads r.0 mr, r.1)

  -- `Write`; the number of bytes written is their length.
  unfoldable pub write :
      ℕ → Bytes → MemRepo D → MemRepoUpload D A → (MemRepo D × MemRepoUpload D A) × Result ℕ
  write now p mr u =
      let r = Cache.get now u.session_id mr.uploads in
      elim r.1 [
        | err x ↦ ((with_uploads r.0 mr, u), err x)
        | ok _ ↦ (
          (
            with_uploads r.0 mr,
            record u {
              buffer = u.buffer ++ p;
              w = record { algo = u.w.algo; hashed = u.w.hashed ++ p };
            },
          ),
          ok (length p),
        )
      ]

  unfoldable pub digest : WriterLib D A → MemRepoUpload D A → D
  digest lib u = elim (writer_digest lib u) [ ok d ↦ d | err _ ↦ lib.digests.zero_digest ]

  unfoldable pub change_algorithm :
      ⦃e : Comparable A⦄ → WriterLib D A → A → MemRepoUpload D A → MemRepoUpload D A × Option Error
  change_algorithm lib a u =
      if lib.alg_is_zero a
      then (u, some (other "algorithm not available"))
      else if a == u.alg
      then (u, none)
      else (elim u.buffer [
        | _ ∷ _ ↦ (u, some (other "unable to change algorithm after first write"))
        | [] ↦ (new_writer a u, none)
      ])

  -- The last part of `Verify`: the error that names both digests.
  abbrev pub mismatch : WriterLib D A → MemRepoUpload D A → Error
  mismatch lib u = elim (writer_digest lib u) [
    | err _ ↦ other "failed to compute digest"
    | ok _ ↦ other "digest mismatch"
  ]

  -- The content is read again under the algorithm of the digest.
  abbrev pub rescan : A → MemRepoUpload D A → MemRepoUpload D A
  rescan a u = record u { alg = a; w = record { algo = a; hashed = u.buffer } }

  unfoldable pub verify :
      ⦃e : Comparable A⦄ → WriterLib D A → D → MemRepoUpload D A → MemRepoUpload D A × Option Error
  verify lib d u =
      let again = rescan (lib.algorithm d) u in
      if writer_verify lib d u
      then (u, none)
      else if lib.digests.is_zero d
      then (u, some (other "invalid digest"))
      else if u.alg == lib.algorithm d
      then (u, some (mismatch lib u))
      else if writer_verify lib d again
      then (again, none)
      else (again, some (mismatch lib again))

module _ {D A : Type 0} ⦃e : Comparable D⦄ where
  -- The blob of an upload is stored, and the session ended.
  unfoldable pub store_upload : ℕ → D → MemRepo D → MemRepoUpload D A → MemRepo D × Option Error
  store_upload now d mr u =
      cancel (with_blobs (GoMap.put d (some (upload_blob now u)) mr.blobs) mr) u

  unfoldable pub close :
      WriterLib D A → ℕ → MemRepo D → MemRepoUpload D A → MemRepo D × Option Error
  close lib now mr u =
      if not (lib.digests.is_zero u.expect) && not (writer_verify lib u.expect u)
      then (mr, some (other "digest mismatch"))
      else (elim (writer_digest lib u) [
        | err _ ↦ (stamped now mr, some (other "failed to compute digest"))
        | ok d ↦ store_upload now d (stamped now mr) u
      ])

  abbrev pub new_upload : BlobConfig D A → String → MemRepoUpload D A
  new_upload conf id = record {
    buffer = [];
    alg = conf.algo;
    w = record { algo = conf.algo; hashed = [] };
    expect = conf.expect;
    session_id = id;
  }

  -- A session under a fresh identifier; `ref` is the address of the new upload.
  unfoldable pub open_session :
      ℕ → ℕ → BlobConfig D A → String → MemRepo D → MemRepo D × Result (MemRepoUpload D A)
  open_session now ref conf id mr =
      let r = Cache.get now id mr.uploads in
      elim r.1 [
        | ok _ ↦ (with_uploads r.0 mr, err (other "session ID collision"))
        | err _ ↦ (
          stamped now (with_session (Cache.set now id ref r.0) (with_uploads r.0 mr)),
          ok (new_upload conf id),
        )
      ]

  -- `BlobCreate`; `session` is what `genSessionID` returns. The identifier of the session, which
  -- is returned too, is a field of the upload.
  unfoldable pub blob_create :
      WriterLib D A
      → ℕ
      → ℕ
      → Result String
      → List (BlobOpt D A)
      → MemRepo D
      → MemRepo D × Result (MemRepoUpload D A)
  blob_create lib now ref session opts mr =
      if is_read_only mr
      then (mr, err read_only)
      else (elim (blob_opts opts
          (record { algo = lib.canonical; expect = lib.digests.zero_digest })) [
            | err x ↦ (mr, err x)
            | ok conf ↦
                if not (lib.digests.is_zero conf.expect) && has_blob conf.expect mr
                then (mr, err blob_exists)
                else (elim session [
                  | err _ ↦ (mr, err (other "failed generating sessionID"))
                  | ok id ↦ open_session now ref conf id mr
                ])
          ])
