-- ===== src/Manifests/Check.antt =====
-- manifest.go: the check of the content of a manifest that is pushed.
use olareg.Shared.{
  String, List, [], ◌∷◌, Option, none, some, Bool, true, false, ◌&&◌, ◌||◌, not, Comparable, ◌==◌,
  string_comparable, if◌then◌else◌, ◌⊎◌, inl, inr,
}
use olareg.Shared.Slices.{length}
use olareg.Types.Error.{ok, err}
use olareg.Types.Digest.{Bytes}
use olareg.Types.Descriptor.{Descriptor, Index, Manifest}
use olareg.Types.MediaType.{media_type_image, media_type_index, media_type_foreign}
use olareg.Types.Layout.{layout_with_children}
use olareg.Config.{Config}
use olareg.Store.Mem.{is_set, blob_get}
use olareg.Store.System.{System, with_repo}
use olareg.Manifests.{ManifestLib, Reply, failed, missing_blobs, Checked, manifest_invalid}

abbrev pub no_urls : Option (List String) → Bool
no_urls (some (_ ∷ _)) = false
no_urls _ = true

module _ {D : Type 0} where
  -- Layers that are foreign or have addresses may not be stored here.
  unfoldable pub layer_blobs : List (Descriptor D) → List D
  layer_blobs [] = []
  layer_blobs (d ∷ ds) =
      let rest = layer_blobs ds in
      if media_type_foreign d.media_type || not (no_urls d.urls) then rest else d.digest ∷ rest

  unfoldable pub image_blobs : Manifest D → List D
  image_blobs m =
      if no_urls m.config.urls then m.config.digest ∷ layer_blobs m.layers else layer_blobs m.layers

  unfoldable pub index_blobs : List (Descriptor D) → List D
  index_blobs [] = []
  index_blobs (d ∷ ds) = d.digest ∷ index_blobs ds

  -- The descriptor of a manifest, for the list of referrers.
  abbrev pub referrer_desc :
      String → String → Bytes → D → Option (List (String × String)) → Descriptor D
  referrer_desc mt artifact_type raw d annotations = record {
    media_type = mt;
    digest = d;
    size = length raw;
    urls = none;
    annotations = annotations;
    embedded = none;
    platform = none;
    artifact_type = artifact_type;
  }

  -- What is left of the check once it is known which blobs are missing.
  unfoldable pub unless_missing : List D → Checked D → Reply D ⊎ Checked D
  unless_missing [] c = inr c
  unless_missing (d ∷ ds) c = inl (missing_blobs (d ∷ ds))

module _ {D A : Type 0} ⦃e : Comparable D⦄ (lib : ManifestLib D A) where
  -- The digests whose blobs `BlobGet` does not return.
  unfoldable pub missing : List D → System D A → System D A × List D
  missing [] s = (s, [])
  missing (d ∷ ds) s =
      let r = blob_get lib.blobs.writer.digests d s.repo in
      let rest = missing ds (with_repo r.0 s) in
      (rest.0, elim r.1 [ err _ ↦ d ∷ rest.1 | ok _ ↦ rest.1 ])

  unfoldable pub manifest_verify_image : Config → Manifest D → System D A → System D A × List D
  manifest_verify_image conf m s =
      if is_set conf.api.manifest.sparse_image then (s, []) else missing (image_blobs m) s

  unfoldable pub manifest_verify_index : Config → Index D → System D A → System D A × List D
  manifest_verify_index conf i s =
      if is_set conf.api.manifest.sparse_index then (s, []) else missing (index_blobs i.manifests) s

  -- The subject, unless it has no digest or referrers are off.
  unfoldable pub subject_of :
      Config → Option (Descriptor D) → Descriptor D → Option (D × Descriptor D)
  subject_of conf none desc = none
  subject_of conf (some subject) desc =
      if not (lib.blobs.writer.digests.is_zero subject.digest) && is_set conf.api.referrer.enabled
      then some (subject.digest, desc)
      else none

  unfoldable pub check_image :
      Config → String → Bytes → D → System D A → System D A × (Reply D ⊎ Checked D)
  check_image conf mt raw d s = elim (lib.json.decode_manifest raw) [
    | err _ ↦ (s, inl (failed (manifest_invalid 400)))
    | ok m ↦
        let r = manifest_verify_image conf m s in
        let kind = if m.artifact_type == "" then m.config.media_type else m.artifact_type in
        (
          r.0,
          unless_missing r.1 (record {
            opts = [];
            referrer = subject_of conf m.subject (referrer_desc mt kind raw d m.annotations);
          }),
        )
  ]

  unfoldable pub check_index :
      Config → String → Bytes → D → System D A → System D A × (Reply D ⊎ Checked D)
  check_index conf mt raw d s = elim (lib.json.decode_index raw) [
    | err _ ↦ (s, inl (failed (manifest_invalid 400)))
    | ok i ↦
        let r = manifest_verify_index conf i s in
        (
          r.0,
          unless_missing r.1 (record {
            opts = layout_with_children i.manifests ∷ [];
            referrer =
                subject_of conf i.subject (referrer_desc mt i.artifact_type raw d i.annotations);
          }),
        )
  ]

  -- `switch mt { … }`
  unfoldable pub check_content :
      Config → String → Bytes → D → System D A → System D A × (Reply D ⊎ Checked D)
  check_content conf mt raw d s =
      if media_type_image mt
      then check_image conf mt raw d s
      else if media_type_index mt
      then check_index conf mt raw d s
      else (s, inl (failed (manifest_invalid 400)))
