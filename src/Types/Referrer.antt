-- ===== src/Types/Referrer.antt =====
-- types/manifest.go: the entry of an index with an annotation, and the descriptor of a manifest in
-- the list of the referrers of its subject.
use olareg.Shared.{
  String, Option, none, some, Bool, false, ◌||◌, not, ◌==◌, string_comparable, if◌then◌else◌,
}
use olareg.Shared.GoMap
use olareg.Shared.Slices.{length, find?}
use olareg.Types.Error.{Result, ok, err, not_found}
use olareg.Types.Digest.{DigestLib, Bytes}
use olareg.Types.Descriptor.{Descriptor, Index}
use olareg.Types.Json.{Json, ReferrerParse}

-- `curVal, ok := cur.Annotations[key]; ok && (val == "" || val == curVal)`
abbrev pub has_value : String → Option String → Bool
has_value val none = false
has_value val (some cur) = val == "" || val == cur

abbrev pub has_annotation : {D : Type 0} → String → String → Descriptor D → Bool
has_annotation key val d = elim d.annotations [
  | none ↦ false
  | some m ↦ has_value val (GoMap.lookup key m)
]

-- `GetByAnnotation`
unfoldable pub get_by_annotation : {D : Type 0} → String → String → Index D → Result (Descriptor D)
get_by_annotation key val i = elim (find? (has_annotation key val) i.manifests) [
  | none ↦ err not_found
  | some d ↦ ok d
]

module _ {D : Type 0} where
  -- The artifact type that a manifest says, or else the media type of its configuration.
  abbrev pub parsed_type : ReferrerParse D → Descriptor D → String
  parsed_type r d =
      if not (r.artifact_type == "")
      then r.artifact_type
      else (elim r.config [ some c ↦ c.media_type | none ↦ d.artifact_type ])

  -- The descriptor once it is known that the manifest has a subject.
  unfoldable pub pull_up :
      DigestLib D → Bytes → ReferrerParse D → Descriptor D → Result (Descriptor D)
  pull_up lib raw r d =
      let rd : Descriptor D = record d {
        media_type = if r.media_type == "" then d.media_type else r.media_type;
        size = length raw;
        artifact_type = parsed_type r d;
        annotations = r.annotations;
      } in
      if lib.is_zero d.digest
      then (elim (lib.from_bytes raw) [ err x ↦ err x | ok dig ↦ ok (record rd { digest = dig }) ])
      else ok rd

  -- `ManifestReferrerDescriptor`: the subject and the descriptor; what it returns with an error is
  -- never used.
  unfoldable pub manifest_referrer_descriptor :
      DigestLib D → Json D → Bytes → Descriptor D → Result (Descriptor D × Descriptor D)
  manifest_referrer_descriptor lib json raw d = elim (json.decode_referrer raw) [
    | err x ↦ err x
    | ok r ↦ elim r.subject [
      | none ↦ err not_found
      | some subject ↦
          if lib.is_zero subject.digest
          then err not_found
          else (elim (pull_up lib raw r d) [ err x ↦ err x | ok rd ↦ ok (subject, rd) ])
    ]
  ]
