-- ===== src/Manifests/Serve.antt =====
-- manifest.go: `manifestGet` and `manifestDelete`. `IndexGet` of a repository in memory returns no
-- error.
use olareg.Shared.{
  ℕ, String, List, [], ◌∷◌, Option, none, some, Bool, true, false, ◌&&◌, not, Comparable, ◌==◌,
  string_comparable, if◌then◌else◌,
}
use olareg.Shared.Slices.{find?}
use olareg.Types.Error.{Error, Result, ok, err, not_found}
use olareg.Types.Digest.{Bytes}
use olareg.Types.Descriptor.{Descriptor}
use olareg.Types.MediaType.{media_type_accepts, media_type_index}
use olareg.Types.Referrer.{manifest_referrer_descriptor}
use olareg.Types.Tag.{ref_tag_re}
use olareg.Types.Layout.{Clock}
use olareg.Types.Layout.Operations.{get_desc}
use olareg.Config.{Config}
use olareg.Store.Mem.{is_set, blob_get, index_remove}
use olareg.Store.System.{System, with_repo}
use olareg.Response.{Failure, failure, bare_failure, repo_failure}
use olareg.Blobs.Handlers.{denied}
use olareg.Referrers.{Update, referrer_delete}
use olareg.Manifests.{ManifestLib, Reply, failed, content, accepted}

abbrev pub manifest_unknown : Failure
manifest_unknown = failure 404 "MANIFEST_UNKNOWN"

-- The answer to an error of `BlobGet`.
unfoldable pub manifest_failure : Error → Failure
manifest_failure not_found = failure 404 "MANIFEST_BLOB_UNKNOWN"
manifest_failure _ = bare_failure 500

module _ {D A : Type 0} ⦃e : Comparable D⦄ (lib : ManifestLib D A) where
  -- `index.GetDesc(arg)`; a descriptor without a digest is as good as none.
  unfoldable pub find_desc : String → System D A → Option (Descriptor D)
  find_desc arg s = elim (get_desc lib.blobs.writer.digests arg s.repo.index) [
    | err _ ↦ none
    | ok d ↦ if lib.blobs.writer.digests.to_string d.digest == "" then none else some d
  ]

  -- The content of the manifest that was chosen.
  unfoldable pub send_manifest : Descriptor D → System D A → System D A × Reply D
  send_manifest d s =
      let r = blob_get lib.blobs.writer.digests d.digest s.repo in
      (
        with_repo r.0 s,
        elim r.1 [ err x ↦ failed (manifest_failure x) | ok bs ↦ content d.digest d.media_type bs ],
      )

  -- The first entry of the index whose media type is accepted.
  unfoldable pub choose_entry : List String → Result Bytes → System D A → System D A × Reply D
  choose_entry accepts (err _) s = (s, failed (bare_failure 500))
  choose_entry accepts (ok raw) s = elim (lib.read_index raw) [
    | err _ ↦ (s, failed (bare_failure 500))
    | ok i ↦ elim (find? (λ d. media_type_accepts d.media_type accepts) i.manifests) [
      | none ↦ (s, failed manifest_unknown)
      | some d ↦ send_manifest d s
    ]
  ]

  abbrev pub no_entries : List String → Bool
  no_entries [] = true
  no_entries (_ ∷ _) = false

  -- `manifestGet`; `accepts` has the lines of the header `Accept`.
  unfoldable pub manifest_get :
      String → List String → Option Error → System D A → System D A × Reply D
  manifest_get arg accepts opened s = elim opened [
    | some x ↦ (s, failed (repo_failure x))
    | none ↦ elim (find_desc arg s) [
      | none ↦ (s, failed manifest_unknown)
      | some d ↦
          if media_type_accepts d.media_type accepts
          then send_manifest d s
          else if not (no_entries accepts) && (media_type_index d.media_type && ref_tag_re arg)
          then (let r = blob_get lib.blobs.writer.digests d.digest s.repo in
              choose_entry accepts r.1 (with_repo r.0 s))
          else (s, failed manifest_unknown)
    ]
  ]

  -- The entry in the list of the referrers of its subject goes; an error is only logged.
  unfoldable pub forget_referrer : Update → Descriptor D → Result Bytes → System D A → System D A
  forget_referrer up d (err _) s = s
  forget_referrer up d (ok raw) s =
      elim (manifest_referrer_descriptor lib.blobs.writer.digests lib.json raw d) [
        | err _ ↦ s
        | ok (subject, desc) ↦ (referrer_delete lib.blobs lib.json up subject.digest desc s).0
      ]

  unfoldable pub leave_referrers : Config → Update → Descriptor D → System D A → System D A
  leave_referrers conf up d s =
      let r = blob_get lib.blobs.writer.digests d.digest s.repo in
      if is_set conf.api.referrer.enabled then forget_referrer up d r.1 (with_repo r.0 s) else s

  -- `manifestDelete`
  unfoldable pub manifest_delete :
      Config → Update → Clock → ℕ → String → Option Error → System D A → System D A × Reply D
  manifest_delete conf up clock now arg opened s =
      if is_set conf.storage.read_only then (s, failed denied) else (elim opened [
        | some x ↦ (s, failed (repo_failure x))
        | none ↦ elim (find_desc arg s) [
          | none ↦ (s, failed manifest_unknown)
          | some d ↦
              let left = leave_referrers conf up d s in
              let r = index_remove clock now d left.repo in
              (
                with_repo r.0 left,
                elim r.1 [ some _ ↦ failed (bare_failure 500) | none ↦ accepted ],
              )
        ]
      ])
