-- ===== src/Manifests/Removed.antt =====
-- What a request finds after a manifest is deleted (manifest.go).
use olareg.Shared.{
  ℕ, String, List, Option, none, some, false, ◌≡◌, ap, ◌∙◌, Comparable, ==_iff, string_comparable,
  arith, Option-cases, Bool-cases, inl, inr,
}
use olareg.Shared.Counting.{find?-some}
use olareg.Shared.Slices.{find?}
use olareg.Types.Error.{Error, ok, err, not_found, Result-cases}
use olareg.Types.Descriptor.{Descriptor, annotation_val, annot_ref_name}
use olareg.Types.Tag.{ref_tag_re}
use olareg.Types.Layout.{Clock, LayoutIndex, has_digest}
use olareg.Types.Layout.Operations.{strip, get_digest, get_desc, rm_desc}
use olareg.Types.Layout.Steps.{first_index-find?}
use olareg.Types.Layout.Deletes.{get_digest-rm_desc}
use olareg.Config.{Config}
use olareg.Store.Mem.{MemRepo, index_remove, is_set}
use olareg.Store.System.{System, with_repo}
use olareg.Referrers.{Update}
use olareg.Manifests.{ManifestLib, failed, accepted}
use olareg.Manifests.Serve.{
  manifest_unknown, find_desc, manifest_get, leave_referrers, manifest_delete,
}

module _ {D : Type 0} ⦃e : Comparable D⦄ where
  -- What a digest resolves to has that digest and no tag.
  get_digest-found :
      (q : D) (li : LayoutIndex D) (c : Descriptor D)
      → get_digest q li ≡ ok c
      → (c.digest ≡ q) × (annotation_val c annot_ref_name ≡ "")
  unfolding get_digest strip annotation_val
  get_digest-found q li c h = elim (Option-cases (find? (has_digest q) li.index.manifests)) [
    | inr (x, g) ↦
        let same = find?-some (has_digest q) li.index.manifests g in
        ground (arith, first_index-find? (has_digest q) li.index.manifests, same, ==_iff x.digest q)
    | inl g ↦ elim (Option-cases (find? (has_digest q) li.child_manifests)) [
      | inr (x, k) ↦
          let same = find?-some (has_digest q) li.child_manifests k in
          ground (
            arith,
            first_index-find? (has_digest q) li.index.manifests,
            first_index-find? (has_digest q) li.child_manifests,
            same,
            ==_iff x.digest q,
          )
      | inl k ↦ ground (
        arith,
        first_index-find? (has_digest q) li.index.manifests,
        first_index-find? (has_digest q) li.child_manifests,
      )
    ]
  ]

  index_remove-index :
      (clock : Clock) (now : ℕ) (d : Descriptor D) (mr : MemRepo D)
      → (index_remove clock now d mr).1 ≡ none
      → (index_remove clock now d mr).0.index ≡ rm_desc clock d mr.index
  unfolding index_remove
  index_remove-index clock now d mr h = ground arith

module _ {D A : Type 0} ⦃e : Comparable D⦄ ⦃f : Comparable A⦄ (lib : ManifestLib D A) where
  find_desc-digest :
      (arg : String) (s : System D A) (d : Descriptor D)
      → ref_tag_re arg ≡ false
      → find_desc lib arg s ≡ some d
      → (lib.blobs.writer.digests.parse arg ≡ ok d.digest) × (annotation_val d annot_ref_name ≡ "")
  unfolding find_desc get_desc
  find_desc-digest arg s d h k = elim (Result-cases (lib.blobs.writer.digests.parse arg)) [
    | inl (x, q) ↦ ground arith
    | inr (dig, q) ↦ elim (Result-cases (get_digest dig s.repo.index)) [
      | inl (x, g) ↦ ground arith
      | inr (c, g) ↦ ground (arith, get_digest-found dig s.repo.index c g)
    ]
  ]

  get-unknown :
      (arg : String) (accepts : List String) (dig : D) (s : System D A)
      → ref_tag_re arg ≡ false
      → lib.blobs.writer.digests.parse arg ≡ ok dig
      → get_digest dig s.repo.index ≡ err not_found
      → (manifest_get lib arg accepts none s).1 ≡ failed manifest_unknown
  unfolding manifest_get find_desc get_desc
  get-unknown arg accepts dig s h p k = ground (arith, h, p, k)

  -- After `manifestDelete` of a digest answers 202, with or without referrers, a request for the
  -- digest is answered 404, whatever it accepts.
  pub manifest_delete-gone :
      (conf : Config) (up : Update) (clock : Clock) (now : ℕ) (arg : String) (opened : Option Error)
      (s : System D A) (accepts : List String)
      → ref_tag_re arg ≡ false
      → (manifest_delete lib conf up clock now arg opened s).1 ≡ accepted
      → (manifest_get lib arg accepts none (manifest_delete lib conf up clock now arg opened s).0).1
        ≡ failed manifest_unknown
  unfolding manifest_delete
  manifest_delete-gone conf up clock now arg (some x) s accepts t h = ground arith
  manifest_delete-gone conf up clock now arg none s accepts t h =
      elim (Bool-cases (is_set conf.storage.read_only)) [
        | inl r ↦ ground arith
        | inr r ↦ elim (Option-cases (find_desc lib arg s)) [
          | inl q ↦ ground arith
          | inr (d, q) ↦
              let left = leave_referrers lib conf up d s in
              elim (Option-cases (index_remove clock now d left.repo).1) [
                | inr (x, k) ↦ ground arith
                | inl k ↦
                    let p = find_desc-digest arg s d t q in
                    let gone =
                      ap (get_digest d.digest) (index_remove-index clock now d left.repo k)
                      ∙ get_digest-rm_desc clock d left.repo.index p.1 in
                    rw (r, q, manifest_delete)
                      (get-unknown arg accepts d.digest
                        (with_repo (index_remove clock now d left.repo).0 left) t p.0 gone)
              ]
        ]
      ]
