-- ===== src/Store/Reads.antt =====
-- What a read of a blob returns after an upload is closed or a blob is deleted, and what the sessions
-- of uploads answer (internal/store/mem.go).
use olareg.Shared.{
  ℕ, String, List, none, some, true, ◌⊎◌, Bool-cases, some, false, not, ◌&&◌, ◌||◌, ◌≡◌, ap, ◌↔◌,
  Comparable, ◌==◌, ==_iff, arith, inl, inr, if◌then◌else◌, string_comparable,
}
use olareg.Shared.GoMap.{lookup-put, lookup-delete}
use olareg.Types.Error.{other, Result, ok, err, not_found, Result-cases}
use olareg.Types.Digest.{Bytes, DigestLib}
use olareg.Cache
use olareg.Cache.Access.{get-delete}
use olareg.Store.{WriterLib, BlobOpt, BlobConfig, blob_opts, default_config, Verifies}
use olareg.Store.Mem.{
  with_uploads, MemRepo, load_file, load, blob_get, drop_blob, blob_delete, blob_session,
  is_read_only,
}
use olareg.Store.System.{IsHashed}
use olareg.Store.Upload.{
  MemRepoUpload, upload_blob, cancel, write, verify, store_upload, close, open_session, blob_create,
  writer_digest,
}

module _ {D : Type 0} ⦃e : Comparable D⦄ where
  -- The content that `BlobGet` returns.
  abbrev pub read : DigestLib D → D → MemRepo D → Result Bytes
  read lib d mr = (blob_get lib d mr).1

  -- After `BlobDelete` of a digest that is not zero, in a repository that may be written, whatever
  -- error it returns, the blob is not found, and every other read is as it was. In a read-only
  -- repository every read is as it was.
  pub read-blob_delete :
      (lib : DigestLib D) (now : ℕ) (d j : D) (mr : MemRepo D)
      → lib.is_zero d ≡ false
      → read lib j (blob_delete lib now d mr).0
        ≡ (if not (is_read_only mr) && d == j then err not_found else read lib j mr)
  unfolding blob_get load load_file blob_delete drop_blob
  read-blob_delete lib now d j mr z =
      ground (arith, ==_iff d j, lookup-put d j none mr.blobs, lookup-delete d j mr.blobs)

module _ {D A : Type 0} ⦃e : Comparable D⦄ (lib : WriterLib D A) where
  pub close-reads :
      (now : ℕ) (d j : D) (mr : MemRepo D) (u : MemRepoUpload D A)
      → Verifies lib
      → writer_digest lib u ≡ ok d
      → lib.digests.is_zero d ≡ false
      → read lib.digests j (close lib now mr u).0 ≡ (
          if (lib.digests.is_zero u.expect || u.expect == d) && d == j
          then ok u.buffer
          else read lib.digests j mr)
  unfolding blob_get load load_file close store_upload cancel
  close-reads now d j mr u v h z = ground (
    arith,
    ==_iff d j,
    ==_iff u.expect d,
    v u.w.algo u.w.hashed u.expect,
    lookup-put d j (some (upload_blob now u)) mr.blobs,
  )

  -- `Close` of an upload of digest d: if no digest or d was expected, d then reads as the buffer, and
  -- every other read is as it was. If another digest was expected, it returns an error, and every read is as it was.
  pub read-close :
      (now : ℕ) (d j : D) (mr : MemRepo D) (u : MemRepoUpload D A)
      → Verifies lib
      → writer_digest lib u ≡ ok d
      → lib.digests.is_zero d ≡ false
      → (read lib.digests j (close lib now mr u).0 ≡ (
          if (lib.digests.is_zero u.expect || u.expect == d) && d == j
          then ok u.buffer
          else read lib.digests j mr))
        × (((lib.digests.is_zero u.expect || u.expect == d) ≡ true)
            ⊎ ((close lib now mr u).1 ≡ some (other "digest mismatch")))
  unfolding close
  read-close now d j mr u v h z = (
    close-reads now d j mr u v h z,
    elim (Bool-cases (lib.digests.is_zero u.expect || u.expect == d)) [
      | inl q ↦ inl q
      | inr q ↦ inr (ground (arith, ==_iff u.expect d, v u.w.algo u.w.hashed u.expect))
    ],
  )

-- A digest is not zero, and names the algorithm that made it.
abbrev pub SumsName : {D A : Type 0} → WriterLib D A → Type 0
SumsName {D} {A} lib =
    (a : A) (bs : Bytes) (d : D)
    → lib.sum a bs ≡ ok d
    → (lib.algorithm d ≡ a) × (lib.digests.is_zero d ≡ false)

module _ {D A : Type 0} ⦃e : Comparable D⦄ ⦃f : Comparable A⦄ (lib : WriterLib D A) where
  -- `Verify` of a digest succeeds exactly if it is the digest of the buffer under its own algorithm,
  -- also where the upload was hashed under another one.
  pub verify-none :
      (d : D) (u : MemRepoUpload D A)
      → Verifies lib
      → SumsName lib
      → IsHashed u
      → u.w.algo ≡ u.alg
      → ((verify lib d u).1 ≡ none) ↔ (lib.sum (lib.algorithm d) u.buffer ≡ ok d)
  unfolding verify
  verify-none d u v n h g = ground (
    arith,
    ==_iff u.alg (lib.algorithm d),
    v u.w.algo u.w.hashed d,
    v (lib.algorithm d) u.buffer d,
    n u.w.algo u.w.hashed d,
    n (lib.algorithm d) u.buffer d,
    h,
    g,
  )

module _ {D A : Type 0} ⦃e : Comparable D⦄ (lib : WriterLib D A) where
  session-open :
      (now later ref : ℕ) (conf : BlobConfig D A) (id : String) (mr : MemRepo D)
      (u : MemRepoUpload D A)
      → (open_session now ref conf id mr).1 ≡ ok u
      → (blob_session later u.session_id (open_session now ref conf id mr).0).1 ≡ ok ref
  unfolding blob_session open_session Cache.get Cache.set
  session-open now later ref conf id mr u h = ground (
    arith,
    ==_iff id id,
    lookup-put id id (record { used = now; value = ref }) mr.uploads.entries,
  )

  -- After `BlobCreate` has returned an upload, its session is found, at its address.
  pub session-create :
      (now later ref : ℕ) (session : Result String) (opts : List (BlobOpt D A)) (mr : MemRepo D)
      (u : MemRepoUpload D A)
      → (blob_create lib now ref session opts mr).1 ≡ ok u
      → (blob_session later u.session_id (blob_create lib now ref session opts mr).0).1 ≡ ok ref
  unfolding blob_create
  session-create now later ref session opts mr u h = elim (Result-cases session) [
    | inl (x, q) ↦ ground arith
    | inr (id, q) ↦ elim (Result-cases (blob_opts opts (default_config lib))) [
      | inl (x, g) ↦ ground arith
      | inr (conf, g) ↦ ground (arith, session-open now later ref conf id mr u)
    ]
  ]

  write-missing :
      (now : ℕ) (p : Bytes) (mr : MemRepo D) (u : MemRepoUpload D A)
      → Cache.get now u.session_id mr.uploads ≡ (mr.uploads, err not_found)
      → write now p mr u ≡ ((mr, u), err not_found)
  unfolding write
  write-missing now p mr u h = rw (h, write) (ap (λ r. ((with_uploads r.0 mr, u), err not_found)) h)

  -- Once an upload is cancelled without an error, a write into it fails and changes nothing.
  pub write-cancel :
      (now : ℕ) (p : Bytes) (mr : MemRepo D) (u : MemRepoUpload D A)
      → (cancel mr u).1 ≡ none
      → write now p (cancel mr u).0 u ≡ (((cancel mr u).0, u), err not_found)
  unfolding cancel
  write-cancel now p mr u h =
      write-missing now p (cancel mr u).0 u (get-delete now u.session_id mr.uploads h)
