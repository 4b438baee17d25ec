-- ===== src/Blobs.antt =====
-- blob.go: what the handlers of blobs and uploads take from a request and answer, and the test of the
-- header `content-range`.
pub mod Handlers
pub mod Uploads
pub mod Put
pub mod Posts
pub mod Sessions
pub mod Live
pub mod Client
pub mod Protocol
pub mod Created
pub mod Mounts
mod Tests
use Prim.Native.Char.{code}
use Prim.Native.String.{String, slice}
use Prim.Native.String
use olareg.Shared.{
  ℕ, zero, suc, ◌+◌, List, Option, none, some, Bool, true, false, ◌==◌, string_comparable, nat_eqb,
  if◌then◌else◌,
}
use mathlib.Core.Option
use olareg.Shared.Int.{ℤ, pos, negsuc}
use olareg.Shared.Numerals.{parse_int}
use olareg.Types.Error.{Error, Result}
use olareg.Types.Digest.{Bytes}
use olareg.Store.{WriterLib}
use olareg.Response.{Failure}

-- Packages outside the repository: oci-digest with `AlgorithmLookup`, and json and base64 with the
-- state of an upload, `blobUploadState`, whose offset may be any integer in a request.
pub record BlobLib (D A : Type 0) : Type 0 where
  pub writer : WriterLib D A
  pub algorithm_lookup : String → Result A
  pub encode_state : ℕ → String
  pub decode_state : String → Option ℤ

-- A body as `io.Copy` reads it: the parts, each with the time when it is written, and the error that
-- ends it.
pub record Body : Type 0 where
  pub chunks : List (ℕ × Bytes)
  pub error : Option Error

pub data Reply (D : Type 0) : Type 0 where
  failed : Failure → Reply D
  -- `http.ServeContent` with the content of a digest
  content : D → Bytes → Reply D
  accepted : Reply D
  no_content : Reply D
  -- 201, with the location of the digest
  created : D → Reply D
  -- 202 for a new session, with its identifier and state in the location
  started : String → String → Reply D
  -- a status, the state in the location, and where the header `Range` ends
  progress : ℕ → String → ℤ → Reply D
  -- 416, and where the header `range` ends
  range_invalid : ℤ → Reply D

-- `curEnd-1` in the headers on the range
abbrev pub range_end : ℕ → ℤ
range_end zero = negsuc 0
range_end (suc n) = pos n

-- `strings.Index(s, "-")`, `none` for -1
unfoldable pub index_dash : String → Option ℕ
index_dash String.[] = none
index_dash (String.◌∷◌ c s) =
    if nat_eqb (code c) b'-' then some 0 else Option.map suc (index_dash s)

unfoldable pub equals_size : Option ℤ → ℕ → Bool
equals_size (some (pos n)) size = nat_eqb n size
equals_size _ size = false

unfoldable pub blob_valid_range : String → ℕ → Bool
unfolding index_dash equals_size
blob_valid_range cr cur_size = if cr == "" then true else (elim (index_dash cr) [
  | none ↦ false
  | some zero ↦ false
  | some (suc i) ↦ equals_size (parse_int (slice cr 0 (suc i))) cur_size
])
