-- ===== src/Types/Digest.antt =====
-- What the program takes from the package oci-digest, which is not part of the repository: the
-- digests are a type with Go's `==`, which `Equal` decides too, and these operations.
use olareg.Shared.{ℕ, String, List, Bool}
use olareg.Types.Error.{Result}

-- A content is the list of its bytes.
abbrev pub Bytes : Type 0
Bytes = List ℕ

pub record DigestLib (D : Type 0) : Type 0 where
  -- `Digest{}` and `d.IsZero()`
  pub zero_digest : D
  pub is_zero : D → Bool
  -- `d.String()`, `digest.Parse`
  pub to_string : D → String
  pub parse : String → Result D
  -- `digest.Canonical.FromBytes`
  pub from_bytes : Bytes → Result D
