-- ===== src/Documents.antt =====
-- How the handlers store a document that they have whole, a manifest or a list of referrers: the same
-- lines stand in manifest.go and, twice, in referrer.go. A blob that exists already is no error.
pub mod Stored
use olareg.Shared.{ℕ, List, [], ◌∷◌, Option, none, some, Bool, true, false, Comparable}
use olareg.Types.Error.{Error, Result, ok, err, blob_exists}
use olareg.Types.Digest.{Bytes}
use olareg.Store.{blob_with_digest}
use olareg.Store.Upload.{MemRepoUpload, write, close}
use olareg.Store.System.{System}
use olareg.Blobs.{BlobLib}
use olareg.Blobs.Handlers.{put_back}
use olareg.Blobs.Posts.{Start, create}

module _ {D A : Type 0} ⦃e : Comparable D⦄ (lib : BlobLib D A) where
  -- `bc.Write` and `bc.Close`; the upload is closed also where the write fails.
  unfoldable pub write_document :
      Start → Bytes → ℕ → MemRepoUpload D A → System D A → System D A × Option Error
  write_document start raw ref u s =
      let r = write start.later raw s.repo u in
      let closed = close lib.writer start.later r.0.0 r.0.1 in
      (put_back ref (closed.0, r.0.1) s, elim r.1 [ err x ↦ some x | ok _ ↦ closed.1 ])

  -- `repo.BlobCreate(store.BlobWithDigest(d))`, and the content
  unfoldable pub push_document : Start → D → Bytes → System D A → System D A × Option Error
  push_document start d raw s =
      let r = create lib start (blob_with_digest lib.writer d ∷ []) s in
      elim r.1 [
        | err blob_exists ↦ (r.0, none)
        | err x ↦ (r.0, some x)
        | ok (ref, u) ↦ write_document start raw ref u r.0
      ]
