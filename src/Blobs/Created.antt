-- ===== src/Blobs/Created.antt =====
-- What `BlobCreate` for a digest makes, and what the end of such an upload stores (blob.go).
use olareg.Shared.{
  ℕ, String, List, [], ◌∷◌, none, true, false, ◌≡◌, refl, ap, ◌∙◌, Comparable, arith,
  string_comparable,
}
use olareg.Shared.Slices.{length}
use olareg.Types.Error.{Result, ok, err, blob_exists}
use olareg.Store.{BlobOpt, Verifies, blob_with_digest, blob_opts}
use olareg.Store.Mem.{MemRepo, blob_get, load, load_file, has_blob}
use olareg.Store.Reads.{read}
use olareg.Store.Upload.{MemRepoUpload, blob_create, open_session, close, writer_digest}
use olareg.Store.System.{System, IsHashed, add_upload}
use olareg.Blobs.{BlobLib}
use olareg.Blobs.Posts.{Start, create}
use olareg.Blobs.Put.{Same}

module _ {D A : Type 0} ⦃e : Comparable D⦄ ⦃f : Comparable A⦄ (lib : BlobLib D A) where
  read-blob_create :
      (now ref : ℕ) (session : Result String) (opts : List (BlobOpt D A)) (j : D) (mr : MemRepo D)
      → read lib.writer.digests j (blob_create lib.writer now ref session opts mr).0
        ≡ read lib.writer.digests j mr
  unfolding blob_create open_session blob_get load load_file
  read-blob_create now ref session opts j mr = ground arith

  add_upload-repo :
      (r : MemRepo D × Result (MemRepoUpload D A)) (s : System D A) → (add_upload r s).repo ≡ r.0
  unfolding add_upload
  add_upload-repo (mr, ok u) s = refl
  add_upload-repo (mr, err x) s = refl

  pub create-Same :
      (start : Start) (opts : List (BlobOpt D A)) (s : System D A)
      → Same lib s.repo (create lib start opts s).0.repo
  unfolding create
  create-Same start opts s j =
      let r = blob_create lib.writer start.now (length s.heap) start.session opts s.repo in
      ap (λ mr. read lib.writer.digests j mr) (add_upload-repo r s)
      ∙ read-blob_create start.now (length s.heap) start.session opts j s.repo

  -- An upload that is created for a digest.
  pub record Expects (d : D) (u : MemRepoUpload D A) : Type 0 where
    pub expect : u.expect ≡ d
    pub some_digest : lib.writer.digests.is_zero d ≡ false
    pub hashed : IsHashed u
    pub empty : u.buffer ≡ []

  pub create-Expects :
      (start : Start) (d : D) (s : System D A) (ref : ℕ) (u : MemRepoUpload D A)
      → (create lib start (blob_with_digest lib.writer d ∷ []) s).1 ≡ ok (ref, u)
      → Expects d u × (has_blob d s.repo ≡ false)
  unfolding create blob_create blob_opts blob_with_digest open_session
  create-Expects start d s ref u h = (
    record {
      expect = ground arith;
      some_digest = ground arith;
      hashed = ground arith;
      empty = ground arith;
    },
    ground arith,
  )

  pub create-exists :
      (start : Start) (d : D) (s : System D A)
      → (create lib start (blob_with_digest lib.writer d ∷ []) s).1 ≡ err blob_exists
      → has_blob d s.repo ≡ true
  unfolding create blob_create blob_opts blob_with_digest open_session
  create-exists start d s h = ground arith

  pub close-expect :
      (now : ℕ) (d : D) (mr : MemRepo D) (u : MemRepoUpload D A)
      → Verifies lib.writer
      → u.expect ≡ d
      → lib.writer.digests.is_zero d ≡ false
      → (close lib.writer now mr u).1 ≡ none
      → writer_digest lib.writer u ≡ ok d
  unfolding close
  close-expect now d mr u v h z k = ground (arith, v u.w.algo u.w.hashed u.expect)
