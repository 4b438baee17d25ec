-- ===== src/Store.antt =====
-- internal/store/store.go: what the stores share: the settings of a new blob, and what they take
-- from package oci-digest, whose algorithms are a type with Go's `==`.
pub mod Mem
pub mod System
pub mod Content
pub mod Reads
pub mod Collect
pub mod Ingest
pub mod Dedup
pub mod Upload
pub mod Tests
use olareg.Shared.{ℕ, Bool, true, List, [], ◌∷◌, ◌≡◌, ◌↔◌, if◌then◌else◌}
use olareg.Types.Error.{Result, ok, err, other, ◌>>=◌}
use olareg.Types.Digest.{DigestLib, Bytes}

-- A `digest.Writer` is the algorithm and the bytes that its hash has read.
pub record WriterLib (D A : Type 0) : Type 0 where
  pub digests : DigestLib D
  -- `a.IsZero()`, `digest.Canonical`, `d.Algorithm()`
  pub alg_is_zero : A → Bool
  pub canonical : A
  pub algorithm : D → A
  -- `w.Digest()`
  pub sum : A → Bytes → Result D
  -- `w.Verify(d)`
  pub verify : A → Bytes → D → Bool

-- `w.Verify(d)` says whether d is the digest of what the writer has read.
abbrev pub Verifies : {D A : Type 0} → WriterLib D A → Type 0
Verifies {D} {A} lib =
    (a : A) (bs : Bytes) (d : D) → (lib.verify a bs d ≡ true) ↔ (lib.sum a bs ≡ ok d)

pub record BlobConfig (D A : Type 0) : Type 0 where
  pub algo : A
  pub expect : D

pub record BlobMeta : Type 0 where
  pub mod_time : ℕ

abbrev pub BlobOpt : Type 0 → Type 0 → Type 0
BlobOpt D A = BlobConfig D A → Result (BlobConfig D A)

module _ {D A : Type 0} where
  unfoldable pub blob_with_algorithm : A → BlobOpt D A
  blob_with_algorithm a bc = ok (record bc { algo = a })

  unfoldable pub blob_with_digest : WriterLib D A → D → BlobOpt D A
  blob_with_digest lib d bc =
      if lib.digests.is_zero d
      then err (other "invalid digest")
      else ok (record { expect = d; algo = lib.algorithm d })

  -- `for _, opt := range opts { err := opt(&conf) … }`
  unfoldable pub blob_opts : List (BlobOpt D A) → BlobConfig D A → Result (BlobConfig D A)
  blob_opts [] bc = ok bc
  blob_opts (opt ∷ opts) bc = opt bc >>= blob_opts opts

  -- `blobConfig{algo: digest.Canonical}`
  abbrev pub default_config : WriterLib D A → BlobConfig D A
  default_config lib = record { algo = lib.canonical; expect = lib.digests.zero_digest }
