-- ===== src/Types/Json.antt =====
-- What the program takes from package json: the documents that it reads and writes. The types that
-- are only read stand here too (types/mediatype.go, types/manifest.go).
use olareg.Shared.{String, List, Option}
use olareg.Types.Error.{Result}
use olareg.Types.Digest.{Bytes}
use olareg.Types.Descriptor.{Descriptor, Annotations, Index, Manifest}

pub record MtDetect (D : Type 0) : Type 0 where
  pub media_type : String
  pub manifests : List (Descriptor D)
  pub config_media_type : String

pub record ReferrerParse (D : Type 0) : Type 0 where
  pub media_type : String
  pub artifact_type : String
  pub config : Option (Descriptor D)
  pub subject : Option (Descriptor D)
  pub annotations : Option Annotations

-- `json.Marshal` and `json.Unmarshal` of an index, `fill_index` for what a Decoder leaves in an index
-- that it reads into, whether it fails or not, and `json.Unmarshal` into the other types.
pub record Json (D : Type 0) : Type 0 where
  pub encode_index : Index D → Result Bytes
  pub decode_index : Bytes → Result (Index D)
  pub fill_index : Bytes → Index D → Index D
  pub decode_manifest : Bytes → Result (Manifest D)
  pub decode_detect : Bytes → Result (MtDetect D)
  pub decode_referrer : Bytes → Result (ReferrerParse D)
