-- ===== src/Types/MediaType.antt =====
-- types/mediatype.go: the media types, what a request accepts, and what a manifest looks like.
use text.Mathlib.Text.{starts_with}
use olareg.Shared.{
  String, List, [], ◌∷◌, Option, none, some, Bool, true, false, ◌&&◌, ◌||◌, not, ◌==◌,
  string_comparable, if◌then◌else◌,
}
use olareg.Shared.Slices.{any}
use olareg.Shared.Cutting.{before, split, to_lower, trim_space}
use olareg.Types.Error.{ok, err}
use olareg.Types.Digest.{Bytes}
use olareg.Types.Json.{Json}

abbrev pub docker2_manifest : String
docker2_manifest = "application/vnd.docker.distribution.manifest.v2+json"

abbrev pub docker2_manifest_list : String
docker2_manifest_list = "application/vnd.docker.distribution.manifest.list.v2+json"

abbrev pub oci1_manifest : String
oci1_manifest = "application/vnd.oci.image.manifest.v1+json"

abbrev pub oci1_manifest_list : String
oci1_manifest_list = "application/vnd.oci.image.index.v1+json"

-- `MediaTypeIndex`
unfoldable pub media_type_index : String → Bool
media_type_index mt = mt == docker2_manifest_list || mt == oci1_manifest_list

-- `MediaTypeImage`
unfoldable pub media_type_image : String → Bool
media_type_image mt = mt == docker2_manifest || mt == oci1_manifest

-- `MediaTypeForeign`
unfoldable pub media_type_foreign : String → Bool
media_type_foreign mt =
    mt == "application/vnd.docker.image.rootfs.foreign.diff.tar.gzip"
    || mt == "application/vnd.oci.image.layer.nondistributable.v1.tar"
    || mt == "application/vnd.oci.image.layer.nondistributable.v1.tar+gzip"
    || mt == "application/vnd.oci.image.layer.nondistributable.v1.tar+zstd"

-- `MediaTypeBase`
unfoldable pub media_type_base : String → String
media_type_base orig = trim_space (to_lower (before b';' orig))

-- Two parts of a media type, if it has two.
abbrev pub two_parts : List String → Option (String × String)
two_parts (a ∷ b ∷ []) = some (a, b)
two_parts _ = none

-- The comparison of `MediaTypeMatch` once both are split.
unfoldable pub match_parts : Option (String × String) → Option (String × String) → Bool
match_parts (some (a, b)) (some (x, y)) = y == "*" && (x == "*" || x == a)
match_parts _ _ = false

-- `MediaTypeMatch`
unfoldable pub media_type_match : String → String → Bool
media_type_match mt accept =
    mt == accept || match_parts (two_parts (split b'/' "" mt)) (two_parts (split b'/' "" accept))

-- `MediaTypeAccepts`
unfoldable pub media_type_accepts : String → List String → Bool
media_type_accepts mt [] = true
media_type_accepts mt (a ∷ accepts) =
    any (λ line. any (λ entry. media_type_match mt (media_type_base entry)) (split b',' "" line))
      (a ∷ accepts)

abbrev pub docker_prefix : String
docker_prefix = "application/vnd.docker."

abbrev pub docker_or : String → String → String → String
docker_or mt docker oci = if starts_with mt docker_prefix then docker else oci

-- `MediaTypeDetect`
unfoldable pub media_type_detect : {D : Type 0} → Json D → Bytes → String
media_type_detect json raw = elim (json.decode_detect raw) [
  | err _ ↦ ""
  | ok m ↦ if not (m.media_type == "") then m.media_type else (elim m.manifests [
    | d ∷ _ ↦ docker_or d.media_type docker2_manifest_list oci1_manifest_list
    | [] ↦
        if m.config_media_type == ""
        then ""
        else docker_or m.config_media_type docker2_manifest oci1_manifest
  ])
]
