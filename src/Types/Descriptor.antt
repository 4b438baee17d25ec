-- ===== src/Types/Descriptor.antt =====
-- types/descriptor.go, types/platform.go, types/annotations.go and the types of types/manifest.go.
-- A slice or map that may be nil is an `Option`; where Go's code never asks whether a slice is
-- nil it is a plain list. Values are never shared, so the deep copies that `Copy` makes are the
-- values themselves.
use olareg.Shared.{
  ℕ, String, List, Option, none, some, ◌==◌, string_comparable, if◌then◌else◌, ◌≡◌, arith,
}
use olareg.Shared.GoMap
use olareg.Shared.GoMap.{GoMap, lookup-delete, lookup-put}
use olareg.Types.Digest.{Bytes}

pub record Platform : Type 0 where
  pub architecture : String
  pub os : String
  pub os_version : String
  pub os_features : Option (List String)
  pub variant : String
  pub features : Option (List String)

abbrev pub Annotations : Type 0
Annotations = GoMap String String

abbrev pub annot_created : String
annot_created = "org.opencontainers.image.created"

abbrev pub annot_ref_name : String
annot_ref_name = "org.opencontainers.image.ref.name"

abbrev pub annot_referrer_subject : String
annot_referrer_subject = "org.olareg.referrer.subject"

abbrev pub annot_referrer_convert : String
annot_referrer_convert = "org.olareg.referrer.convert"

-- `size` is a length in bytes, and `embedded` is the field `Data`.
pub record Descriptor (D : Type 0) : Type 0 where
  pub media_type : String
  pub digest : D
  pub size : ℕ
  pub urls : Option (List String)
  pub annotations : Option Annotations
  pub embedded : Option Bytes
  pub platform : Option Platform
  pub artifact_type : String

-- `m[key]` of a map of texts: the empty text where the key is missing.
unfoldable pub text_at : Annotations → String → String
text_at m key = elim (GoMap.lookup key m) [ none ↦ "" | some v ↦ v ]

-- A nil map reads as an empty one.
abbrev pub annotation_at : Option Annotations → String → String
annotation_at none key = ""
annotation_at (some m) key = text_at m key

unfoldable pub annotation_val : {D : Type 0} → Descriptor D → String → String
annotation_val d key = annotation_at d.annotations key

pub text_at-delete :
    (k j : String) (m : Annotations)
    → text_at (GoMap.delete k m) j ≡ (if k == j then "" else text_at m j)
unfolding text_at
text_at-delete k j m = ground (arith, lookup-delete k j m)

pub text_at-put :
    (k j v : String) (m : Annotations)
    → text_at (GoMap.put k v m) j ≡ (if k == j then v else text_at m j)
unfolding text_at
text_at-put k j v m = ground (arith, lookup-put k j v m)

pub record Index (D : Type 0) : Type 0 where
  pub schema_version : ℕ
  pub media_type : String
  pub artifact_type : String
  pub manifests : List (Descriptor D)
  pub subject : Option (Descriptor D)
  pub annotations : Option Annotations

pub record Manifest (D : Type 0) : Type 0 where
  pub schema_version : ℕ
  pub media_type : String
  pub artifact_type : String
  pub config : Descriptor D
  pub layers : List (Descriptor D)
  pub subject : Option (Descriptor D)
  pub annotations : Option Annotations
