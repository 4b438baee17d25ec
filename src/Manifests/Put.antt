-- ===== src/Manifests/Put.antt =====
-- manifest.go: `manifestPut`, the push of a manifest.
use olareg.Shared.{
  ℕ, suc, String, List, [], ◌∷◌, Option, none, some, Comparable, ◌==◌, string_comparable,
  if◌then◌else◌, ◌⊎◌, inl, inr,
}
use olareg.Shared.Slices.{length}
use olareg.Types.Error.{Error}
use olareg.Types.Digest.{Bytes}
use olareg.Types.Descriptor.{Descriptor, annot_ref_name}
use olareg.Types.MediaType.{media_type_detect}
use olareg.Types.Layout.{Clock, LayoutIndexOpt}
use olareg.Config.{Config}
use olareg.Store.Mem.{MemRepo, is_set, index_insert}
use olareg.Store.System.{System, with_repo}
use olareg.Response.{bare_failure, repo_failure}
use olareg.Blobs.Posts.{Start}
use olareg.Blobs.Handlers.{denied}
use olareg.Documents.{push_document}
use olareg.Referrers.{Update, referrer_add}
use olareg.Manifests.{ManifestLib, PutRequest, Reply, failed, created, Checked, parse_put, read_put}
use olareg.Manifests.Check.{check_content}

-- The times of the upload, of the calls of `IndexInsert` one after the other, and of `referrerAdd`.
pub record PutTimes : Type 0 where
  pub start : Start
  pub inserts : ℕ → Clock × ℕ
  pub referrer : Update

module _ {D : Type 0} where
  -- The descriptor in the index, which has a tag or no annotations.
  abbrev pub put_desc : String → D → Bytes → Option String → Descriptor D
  put_desc mt d raw tag = record {
    media_type = mt;
    digest = d;
    size = length raw;
    urls = none;
    annotations = elim tag [ none ↦ none | some t ↦ some ((annot_ref_name, t) ∷ []) ];
    embedded = none;
    platform = none;
    artifact_type = "";
  }

module _ {D : Type 0} ⦃e : Comparable D⦄ where
  -- `for _, tag := range tags { … }`, after `n` rounds of it
  unfoldable pub insert_tags :
      (ℕ → Clock × ℕ)
      → ℕ
      → List (LayoutIndexOpt D)
      → (Option String → Descriptor D)
      → List String
      → MemRepo D
      → MemRepo D × Option Error
  insert_tags times n opts desc [] mr = (mr, none)
  insert_tags times n opts desc (tag ∷ tags) mr =
      let r = index_insert (times n).0 (times n).1 (desc (some tag)) opts mr in
      elim r.1 [ some x ↦ (r.0, some x) | none ↦ insert_tags times (suc n) opts desc tags r.0 ]

  unfoldable pub insert_manifest :
      (ℕ → Clock × ℕ)
      → List (LayoutIndexOpt D)
      → (Option String → Descriptor D)
      → List String
      → MemRepo D
      → MemRepo D × Option Error
  insert_manifest times opts desc [] mr = index_insert (times 0).0 (times 0).1 (desc none) opts mr
  insert_manifest times opts desc (tag ∷ tags) mr = insert_tags times 0 opts desc (tag ∷ tags) mr

module _ {D A : Type 0} ⦃e : Comparable D⦄ (lib : ManifestLib D A) where
  -- The entry in the list of the referrers of the subject, if there is one, and the answer.
  unfoldable pub finish_put :
      Update → D → List String → Option (D × Descriptor D) → System D A → System D A × Reply D
  finish_put up d tags none s = (s, created d tags none)
  finish_put up d tags (some (subject, desc)) s =
      let r = referrer_add lib.blobs lib.json up subject desc s in
      (r.0, elim r.1 [ some _ ↦ failed (bare_failure 500) | none ↦ created d tags (some subject) ])

  -- What follows the checks: the blob, the entries of the index, the referrer.
  unfoldable pub store_put :
      PutTimes → String → List String → Bytes → D → Checked D → System D A → System D A × Reply D
  store_put times mt tags raw d c s =
      let pushed = push_document lib.blobs times.start d raw s in
      let r = insert_manifest times.inserts c.opts (put_desc mt d raw) tags pushed.0.repo in
      elim pushed.1 [
        | some _ ↦ (pushed.0, failed (bare_failure 500))
        | none ↦ elim r.1 [
          | some _ ↦ (with_repo r.0 pushed.0, failed (bare_failure 500))
          | none ↦ finish_put times.referrer d tags c.referrer (with_repo r.0 pushed.0)
        ]
      ]

  unfoldable pub put_checked :
      PutTimes
      → String
      → List String
      → Bytes
      → D
      → System D A × (Reply D ⊎ Checked D)
      → System D A × Reply D
  put_checked times mt tags raw d (s, inl reply) = (s, reply)
  put_checked times mt tags raw d (s, inr c) = store_put times mt tags raw d c s

  -- `if mt == "" { mt = types.MediaTypeDetect(mRaw) }`
  abbrev pub type_of : String → Bytes → String
  type_of mt raw = if mt == "" then media_type_detect lib.json raw else mt

  -- `manifestPut`
  unfoldable pub manifest_put :
      Config → PutTimes → String → PutRequest → Option Error → System D A → System D A × Reply D
  manifest_put conf times arg r opened s =
      if is_set conf.storage.read_only then (s, failed denied) else (elim opened [
        | some x ↦ (s, failed (repo_failure x))
        | none ↦ elim (parse_put lib conf arg r) [
          | inl f ↦ (s, failed f)
          | inr t ↦ elim (read_put lib conf t.expect r) [
            | inl f ↦ (s, failed f)
            | inr (raw, d) ↦
                let mt = type_of t.media_type raw in
                put_checked times mt t.tags raw d (check_content lib conf mt raw d s)
          ]
        ]
      ])
