-- ===== src/Documents/Stored.antt =====
-- What every digest reads as once a document is stored (manifest.go, referrer.go).
use olareg.Shared.{
  ℕ, [], ◌∷◌, ◌++◌, none, some, true, false, ◌≡◌, ap, ◌∙◌, Comparable, ◌==◌, ==_iff, arith,
  if◌then◌else◌, Option-cases, inl, inr,
}
use olareg.Types.Error.{ok, err, blob_exists, Result-cases}
use olareg.Types.Digest.{Bytes}
use olareg.Shared.GoMap
use olareg.Store.{Verifies, blob_with_digest, blob_opts}
use olareg.Store.Mem.{MemRepo, blob_get, load, load_file, has_blob}
use olareg.Store.Upload.{MemRepoUpload, write, close, blob_create, open_session}
use olareg.Store.System.{System}
use olareg.Store.Reads.{read, close-reads}
use olareg.Blobs.{BlobLib}
use olareg.Blobs.Posts.{Start, create}
use olareg.Blobs.Uploads.{write-Grows, read-write, close-none}
use olareg.Blobs.Created.{Expects, create-Same, create-Expects, create-exists, close-expect}
use olareg.Documents.{write_document, push_document}

module _ {D A : Type 0} ⦃e : Comparable D⦄ ⦃f : Comparable A⦄ (lib : BlobLib D A) where
  -- What a digest already reads as is the document of that digest.
  abbrev pub NoClash : D → Bytes → MemRepo D → Type 0
  NoClash d raw mr = (bs : Bytes) → read lib.writer.digests d mr ≡ ok bs → bs ≡ raw

  -- The digest reads as the document, and every other digest as before.
  abbrev pub Reads : D → Bytes → MemRepo D → MemRepo D → Type 0
  Reads d raw old new =
      (j : D)
      → read lib.writer.digests j new ≡ (if d == j then ok raw else read lib.writer.digests j old)

  create-some_digest :
      (start : Start) (d : D) (s : System D A)
      → (create lib start (blob_with_digest lib.writer d ∷ []) s).1 ≡ err blob_exists
      → lib.writer.digests.is_zero d ≡ false
  unfolding create blob_create blob_opts blob_with_digest open_session
  create-some_digest start d s h = ground arith

  read-has_blob :
      (d : D) (mr : MemRepo D)
      → has_blob d mr ≡ true
      → lib.writer.digests.is_zero d ≡ false
      → (bs : Bytes) × (read lib.writer.digests d mr ≡ ok bs)
  unfolding has_blob blob_get load load_file
  read-has_blob d mr h z = elim (Option-cases (GoMap.lookup d mr.blobs)) [
    | inl q ↦ ground arith
    | inr (none, q) ↦ ground arith
    | inr (some b, q) ↦ (b.bytes, ground arith)
  ]

  write-Reads :
      (start : Start) (d : D) (raw : Bytes) (ref : ℕ) (u : MemRepoUpload D A) (s : System D A)
      → Verifies lib.writer
      → Expects lib d u
      → (write_document lib start raw ref u s).1 ≡ none
      → Reads d raw s.repo (write_document lib start raw ref u s).0.repo
  unfolding write_document
  write-Reads start d raw ref u s v x h j = elim (Result-cases (write start.later raw s.repo u).1) [
    | inl (y, q) ↦ ground arith
    | inr (n, q) ↦
        let g = write-Grows start.later raw s.repo u n q in
        let r = (write start.later raw s.repo u).0 in
        let k : (close lib.writer start.later r.0 r.1).1 ≡ none = ground arith in
        let w = close-expect lib start.later d r.0 r.1 v (g.expect ∙ x.expect) x.some_digest k in
        let c = close-none lib.writer start.later d r.0 r.1 v w k in
        let same : r.1.buffer ≡ raw = g.buffer ∙ ap (λ b. b ++ raw) x.empty in
        ground (
          arith,
          close-reads lib.writer start.later d j r.0 r.1 v w x.some_digest,
          c,
          same,
          read-write lib.writer start.later raw j s.repo u,
        )
  ]

  pub push-Reads :
      (start : Start) (d : D) (raw : Bytes) (s : System D A)
      → Verifies lib.writer
      → NoClash d raw s.repo
      → (push_document lib start d raw s).1 ≡ none
      → Reads d raw s.repo (push_document lib start d raw s).0.repo
  unfolding push_document
  push-Reads start d raw s v n h j =
      let opts = blob_with_digest lib.writer d ∷ [] in
      let same = create-Same lib start opts s in
      elim (Result-cases (create lib start opts s).1) [
        | inr ((ref, u), q) ↦
            let x = create-Expects lib start d s ref u q in
            let w =
              write-Reads start d raw ref u (create lib start opts s).0 v x.0 (ground arith) j in
            ground (arith, q, w, same j)
        | inl (blob_exists, q) ↦
            let b =
              read-has_blob d s.repo (create-exists lib start d s q)
                (create-some_digest start d s q) in
            ground (arith, q, same j, b.1, n b.0 b.1, ==_iff d j)
        | inl (x, q) ↦ ground (arith, q)
      ]
