-- ===== src/Store/System.antt =====
-- The operations on a repository in memory and on its uploads, one after the other, and what a read
-- of a blob returns after them (internal/store/mem.go).
use olareg.Shared.{ℕ, ◌++◌, String, List, [], ◌∷◌, none, some, ◌≡◌, Comparable}
use olareg.Shared.GoMap
use olareg.Shared.GoMap.{lookup-put, lookup-delete}
use olareg.Shared.Slices
use olareg.Shared.Slices.{length, get_elem?}
use olareg.Types.Error.{Result, ok, err}
use olareg.Types.Digest.{Bytes}
use olareg.Types.Descriptor.{Descriptor}
use olareg.Types.Layout.{Clock, LayoutIndexOpt}
use olareg.Store.{WriterLib, BlobOpt}
use olareg.Store.Mem.{
  MemRepo, MemRepoBlob, Backing, index_insert, index_remove, blob_get, blob_meta, blob_delete,
  blob_session, Prune, prune,
}
use olareg.Store.Upload.{MemRepoUpload, cancel, write, change_algorithm, verify, close, blob_create}

-- The repository, and the uploads by their addresses.
pub record System (D A : Type 0) : Type 0 where
  pub repo : MemRepo D
  pub heap : List (MemRepoUpload D A)

pub data Op (D A : Type 0) : Type 0 where
  insert_op : Clock → ℕ → Descriptor D → List (LayoutIndexOpt D) → Op D A
  remove_op : Clock → ℕ → Descriptor D → Op D A
  get_op : D → Op D A
  meta_op : D → Op D A
  delete_op : ℕ → D → Op D A
  session_op : ℕ → String → Op D A
  create_op : ℕ → Result String → List (BlobOpt D A) → Op D A
  write_op : ℕ → Bytes → ℕ → Op D A
  close_op : ℕ → ℕ → Op D A
  cancel_op : ℕ → Op D A
  change_op : A → ℕ → Op D A
  verify_op : D → ℕ → Op D A
  prune_op : Prune → Op D A

-- A content has the digest, under some algorithm.
abbrev pub HasDigest : {D A : Type 0} → WriterLib D A → D → Bytes → Type 0
HasDigest {D} {A} lib d bs = (a : A) × (lib.sum a bs ≡ ok d)

module _ {D A : Type 0} where
  abbrev pub with_repo : MemRepo D → System D A → System D A
  with_repo mr s = record s { repo = mr }

  abbrev pub with_upload : ℕ → MemRepoUpload D A → System D A → System D A
  with_upload ref u s = record s { heap = Slices.set s.heap ref u }

  -- An operation on the upload at an address.
  unfoldable pub at : ℕ → (MemRepoUpload D A → System D A) → System D A → System D A
  at ref f s = elim (get_elem? s.heap ref) [ none ↦ s | some u ↦ f u ]

module _ {D A : Type 0} ⦃e : Comparable D⦄ where
  unfoldable pub add_upload : MemRepo D × Result (MemRepoUpload D A) → System D A → System D A
  add_upload (mr, err _) s = with_repo mr s
  add_upload (mr, ok u) s = record { repo = mr; heap = s.heap ++ u ∷ [] }

module _ {D A : Type 0} ⦃e : Comparable D⦄ ⦃f : Comparable A⦄ (lib : WriterLib D A) where
  unfoldable pub step : Op D A → System D A → System D A
  step (insert_op clock now desc opts) s = with_repo (index_insert clock now desc opts s.repo).0 s
  step (remove_op clock now desc) s = with_repo (index_remove clock now desc s.repo).0 s
  step (get_op d) s = with_repo (blob_get lib.digests d s.repo).0 s
  step (meta_op d) s = with_repo (blob_meta lib.digests d s.repo).0 s
  step (delete_op now d) s = with_repo (blob_delete lib.digests now d s.repo).0 s
  step (session_op now id) s = with_repo (blob_session now id s.repo).0 s
  step (create_op now session opts) s =
      add_upload (blob_create lib now (length s.heap) session opts s.repo) s
  step (write_op now p ref) s =
      at ref (λ u. let r = (write now p s.repo u).0 in with_upload ref r.1 (with_repo r.0 s)) s
  step (close_op now ref) s = at ref (λ u. with_repo (close lib now s.repo u).0 s) s
  step (cancel_op ref) s = at ref (λ u. with_repo (cancel s.repo u).0 s) s
  step (change_op a ref) s = at ref (λ u. with_upload ref (change_algorithm lib a u).0 s) s
  step (verify_op d ref) s = at ref (λ u. with_upload ref (verify lib d u).0 s) s
  step (prune_op p) s = with_repo (prune p s.repo) s

  unfoldable pub run : List (Op D A) → System D A → System D A
  run [] s = s
  run (o ∷ os) s = run os (step o s)

module _ {D A : Type 0} ⦃e : Comparable D⦄ (lib : WriterLib D A) where
  -- Blobs, in memory and in the directory, are stored under their digests.
  pub record IsAddressed (mr : MemRepo D) : Type 0 where
    pub stored :
        (d : D) (b : MemRepoBlob)
        → GoMap.lookup d mr.blobs ≡ some (some b)
        → HasDigest lib d b.bytes
    pub files :
        (dir : Backing D) (d : D) (b : MemRepoBlob)
        → mr.path ≡ some dir
        → dir.file d ≡ ok b
        → HasDigest lib d b.bytes

-- The hash of an upload has read what its buffer holds.
abbrev pub IsHashed : {D A : Type 0} → MemRepoUpload D A → Type 0
IsHashed u = u.w.hashed ≡ u.buffer

pub record IsSound {D A : Type 0} ⦃e : Comparable D⦄ (lib : WriterLib D A) (s : System D A)
    : Type 0 where
  pub addressed : IsAddressed lib s.repo
  pub hashed : (ref : ℕ) (u : MemRepoUpload D A) → get_elem? s.heap ref ≡ some u → IsHashed u
