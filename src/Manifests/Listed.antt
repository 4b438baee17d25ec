-- ===== src/Manifests/Listed.antt =====
-- A manifest with a subject is among the referrers of the subject once it is pushed (manifest.go,
-- referrer.go).
use olareg.Shared.{
  subst, ℕ, suc, true, false, String, List, [], ◌∷◌, Option, none, some, ◌≡◌, ◌≢◌, refl, sym, ap,
  ◌∙◌, Comparable, ◌==◌, ==_iff, string_comparable, arith, Option-cases, Bool-cases, inl, inr,
}
use olareg.Shared.Slices.{find?, index_func, set, length}
use olareg.Types.Error.{Error, ok, Result-cases}
use olareg.Types.Digest.{Bytes}
use olareg.Types.Descriptor.{Descriptor, Index, annot_referrer_subject}
use olareg.Types.Referrer.{get_by_annotation}
use olareg.Types.Layout.{Clock, LayoutIndexOpt, has_digest}
use olareg.Config.{Config}
use olareg.Store.{Verifies}
use olareg.Store.Mem.{MemRepo, index_insert, blob_get}
use olareg.Store.Reads.{read}
use olareg.Store.System.{System, with_repo}
use olareg.Documents.{push_document}
use olareg.Documents.Stored.{NoClash, Reads, push-Reads}
use olareg.Referrers.{empty_response, old_response, read_response, replace_or_append, referrer_add}
use olareg.Referrers.Written.{
  as_written, is_readable, all_named, named_subject, ReadsBack, find?-as_written,
}
use olareg.Referrers.Lists.{referrers_of, Free, referrers_of-add}
use olareg.Manifests.{ManifestLib, PutRequest, created, Checked, read_limited}
use olareg.Manifests.Check.{subject_of, unless_missing, check_image, check_index, check_content}
use olareg.Manifests.Put.{
  PutTimes, put_desc, insert_tags, insert_manifest, finish_put, store_put, type_of, manifest_put,
}
use olareg.Manifests.Refused.{Quiet-check}
use olareg.Manifests.Passed.{created-Passed}
use olareg.Manifests.Stored.{insert-reads}

module _ {D : Type 0} ⦃e : Comparable D⦄ where
  find?-replace_or_append :
      (d : Descriptor D) (ds : List (Descriptor D))
      → find? (has_digest d.digest) (replace_or_append d ds) ≡ some d
  unfolding find? replace_or_append index_func set
  find?-replace_or_append d [] = ground (arith, ==_iff d.digest d.digest)
  find?-replace_or_append d (m ∷ ms) = elim (Bool-cases (m.digest == d.digest)) [
    | inl q ↦ ground (arith, ==_iff d.digest d.digest)
    | inr q ↦ elim (Option-cases (index_func (has_digest d.digest) ms)) [
      | inl g ↦ ground (arith, find?-replace_or_append d ms)
      | inr (n, g) ↦ ground (arith, find?-replace_or_append d ms)
    ]
  ]

module _ {D A : Type 0} ⦃e : Comparable D⦄ ⦃f : Comparable A⦄ (lib : ManifestLib D A) where
  -- The digest is among the referrers of the subject, with the size of the content.
  pub record IsListed (subject d : D) (raw : Bytes) (s : System D A) : Type 0 where
    pub desc : Descriptor D
    pub found : find? (has_digest d) (referrers_of lib.blobs lib.json subject s) ≡ some desc
    pub same : desc.digest ≡ d
    pub whole : desc.size ≡ length raw

  -- No list names its own digest.
  abbrev pub NoLoop : D → Type 0
  NoLoop d =
      (i : Index D) (raw : Bytes)
      → lib.json.encode_index i ≡ ok raw
      → lib.blobs.writer.digests.from_bytes raw ≡ ok d
      → find? (has_digest d) i.manifests ≡ none

  -- What the digest of a list with an entry of the digest reads as, if anything, is that list.
  abbrev pub FreeWith : D → MemRepo D → Type 0
  FreeWith d mr =
      (ds : List (Descriptor D)) → find? (has_digest d) ds ≢ none → Free lib.blobs lib.json ds mr

  -- No index among the blobs has a zero digest.
  abbrev pub Legible : MemRepo D → Type 0
  Legible mr =
      (j : D) (bs : Bytes)
      → read lib.blobs.writer.digests j mr ≡ ok bs
      → is_readable lib.blobs.writer.digests (lib.json.fill_index bs empty_response) ≡ true

  insert_tags-reads :
      (times : ℕ → Clock × ℕ) (n : ℕ) (opts : List (LayoutIndexOpt D))
      (desc : Option String → Descriptor D) (tags : List String) (mr : MemRepo D) (j : D)
      → read lib.blobs.writer.digests j (insert_tags times n opts desc tags mr).0
        ≡ read lib.blobs.writer.digests j mr
  unfolding insert_tags
  insert_tags-reads times n opts desc [] mr j = refl
  insert_tags-reads times n opts desc (t ∷ tags) mr j =
      let r = index_insert (times n).0 (times n).1 (desc (some t)) opts mr in
      ground (
        arith,
        insert-reads lib (times n).0 (times n).1 (desc (some t)) opts mr j,
        insert_tags-reads times (suc n) opts desc tags r.0 j,
      )

  insert_manifest-reads :
      (times : ℕ → Clock × ℕ) (opts : List (LayoutIndexOpt D)) (desc : Option String → Descriptor D)
      (tags : List String) (mr : MemRepo D) (j : D)
      → read lib.blobs.writer.digests j (insert_manifest times opts desc tags mr).0
        ≡ read lib.blobs.writer.digests j mr
  unfolding insert_manifest
  insert_manifest-reads times opts desc [] mr j =
      insert-reads lib (times 0).0 (times 0).1 (desc none) opts mr j
  insert_manifest-reads times opts desc (t ∷ tags) mr j =
      insert_tags-reads times 0 opts desc (t ∷ tags) mr j

  -- The descriptor that the checks make is that of the manifest.
  check-referrer :
      (conf : Config) (mt : String) (raw : Bytes) (d subject : D) (s : System D A) (c : Checked D)
      (desc : Descriptor D)
      → (check_content lib conf mt raw d s).1 ≡ inr c
      → c.referrer ≡ some (subject, desc)
      → (desc.digest ≡ d) × (desc.size ≡ length raw)
  unfolding check_content check_image check_index unless_missing subject_of
  check-referrer conf mt raw d subject s c desc h k = (ground arith, ground arith)

  FreeWith-pushed :
      (d : D) (raw : Bytes) (old new : MemRepo D)
      → FreeWith d old
      → NoLoop d
      → Reads lib.blobs d raw old new
      → FreeWith d new
  FreeWith-pushed d raw old new h u r ds m i text dig same q g bs k = elim (Bool-cases (d == dig)) [
    | inl z ↦ absurd (
        m (
          ap (find? (has_digest d)) (sym same)
          ∙ u i text q (g ∙ ap (λ j. ok j) (sym ((==_iff d dig).0 z)))))
    | inr z ↦ h ds m i text dig same q g bs (ground (arith, r dig))
  ]

  Legible-pushed :
      (d : D) (raw : Bytes) (old new : MemRepo D)
      → Legible old
      → is_readable lib.blobs.writer.digests (lib.json.fill_index raw empty_response) ≡ true
      → Reads lib.blobs d raw old new
      → Legible new
  Legible-pushed d raw old new h w r j bs k = elim (Bool-cases (d == j)) [
    | inl z ↦
        let same : raw ≡ bs = ground (arith, r j) in
        subst
          (λ t. is_readable lib.blobs.writer.digests (lib.json.fill_index t empty_response) ≡ true)
          same w
    | inr z ↦ h j bs (ground (arith, r j))
  ]

  Legible-old :
      (subject : D) (s : System D A)
      → Legible s.repo
      → is_readable lib.blobs.writer.digests (read_response lib.blobs lib.json subject s).1 ≡ true
  unfolding read_response old_response all_named named_subject
  Legible-old subject s h =
      elim (Result-cases (
        get_by_annotation annot_referrer_subject (lib.blobs.writer.digests.to_string subject)
          s.repo.index.index)) [
            | inl (x, q) ↦ rw (q, read_response) refl
            | inr (old, q) ↦
                elim (Result-cases (blob_get lib.blobs.writer.digests old.digest s.repo).1) [
                  | inl (x, g) ↦ rw (q, g, read_response, old_response) refl
                  | inr (bs, g) ↦ rw (q, g, read_response, old_response) (h old.digest bs g)
                ]
          ]

  finish-IsListed :
      (times : PutTimes) (d subject : D) (raw : Bytes) (ts tags : List String)
      (referrer : Option (D × Descriptor D)) (s : System D A)
      (b : ReadsBack lib.blobs.writer.digests lib.json)
      → Verifies lib.blobs.writer
      → lib.blobs.writer.digests.to_string subject ≢ ""
      → lib.blobs.writer.digests.is_zero d ≡ false
      → FreeWith d s.repo
      → Legible s.repo
      → ((desc : Descriptor D)
          → referrer ≡ some (subject, desc)
          → (desc.digest ≡ d) × (desc.size ≡ length raw))
      → (finish_put lib times.referrer d ts referrer s).1 ≡ created d tags (some subject)
      → IsListed subject d raw (finish_put lib times.referrer d ts referrer s).0
  unfolding finish_put
  finish-IsListed times d subject raw ts tags none s b v z y fr le own h = ground arith
  finish-IsListed times d subject raw ts tags (some (x, desc)) s b v z y fr le own h =
      elim (Option-cases (referrer_add lib.blobs lib.json times.referrer x desc s).1) [
        | inr (_, q) ↦ ground arith
        | inl q ↦
            let same : x ≡ subject = ground arith in
            let of = own desc (ap (λ j. some (j, desc)) same) in
            let q' = rw same at q in
            let s' = (referrer_add lib.blobs lib.json times.referrer subject desc s).0 in
            let ds = replace_or_append desc (referrers_of lib.blobs lib.json subject s) in
            let named : find? (has_digest d) ds ≡ some desc =
              ap (λ j. find? (has_digest j) ds) (sym of.0)
              ∙ find?-replace_or_append desc (referrers_of lib.blobs lib.json subject s) in
            let listed =
              referrers_of-add lib.blobs lib.json times.referrer subject desc s b v z
                (ap lib.blobs.writer.digests.is_zero of.0 ∙ y) (Legible-old subject s le)
                (fr ds (λ k. ground (arith, named))) q' in
            let found : find? (has_digest d) (referrers_of lib.blobs lib.json subject s')
                ≡ some (as_written b.order desc) =
              ap (find? (has_digest d)) listed ∙ find?-as_written b.order d ds desc named in
            subst
              (λ j.
                IsListed subject d raw (referrer_add lib.blobs lib.json times.referrer j desc s).0)
              (sym same)
              (record { desc = as_written b.order desc; found = found; same = of.0; whole = of.1 })
      ]

  store-IsListed :
      (times : PutTimes) (mt : String) (ts tags : List String) (raw : Bytes) (d subject : D)
      (c : Checked D) (s : System D A) (b : ReadsBack lib.blobs.writer.digests lib.json)
      → Verifies lib.blobs.writer
      → lib.blobs.writer.digests.to_string subject ≢ ""
      → lib.blobs.writer.digests.is_zero d ≡ false
      → FreeWith d s.repo
      → Legible s.repo
      → NoClash lib.blobs d raw s.repo
      → NoLoop d
      → is_readable lib.blobs.writer.digests (lib.json.fill_index raw empty_response) ≡ true
      → ((desc : Descriptor D)
          → c.referrer ≡ some (subject, desc)
          → (desc.digest ≡ d) × (desc.size ≡ length raw))
      → (store_put lib times mt ts raw d c s).1 ≡ created d tags (some subject)
      → IsListed subject d raw (store_put lib times mt ts raw d c s).0
  unfolding store_put
  store-IsListed times mt ts tags raw d subject c s b v z y fr le n u w own h =
      let pushed = push_document lib.blobs times.start d raw s in
      elim (Option-cases pushed.1) [
        | inr (_, q) ↦ ground arith
        | inl q ↦
            let desc = put_desc mt d raw in
            let r = insert_manifest times.inserts c.opts desc ts pushed.0.repo in
            elim (Option-cases r.1) [
              | inr (_, k) ↦ ground arith
              | inl k ↦
                  let reads : Reads lib.blobs d raw s.repo r.0 = λ j.
                    insert_manifest-reads times.inserts c.opts desc ts pushed.0.repo j
                    ∙ push-Reads lib.blobs times.start d raw s v n q j in
                  rw (q, k, store_put)
                    (finish-IsListed times d subject raw ts tags c.referrer (with_repo r.0 pushed.0)
                      b v z y (FreeWith-pushed d raw s.repo r.0 fr u reads)
                      (Legible-pushed d raw s.repo r.0 le w reads) own (rw (q, k, store_put) at h))
            ]
      ]

  -- After `manifestPut` answers 201 for a manifest with a subject, the list of the referrers of the
  -- subject has an entry with the digest and the size of the manifest. The digest of the manifest is
  -- not zero, and neither the manifest nor an index among the blobs has a zero digest in it. What the
  -- digests of the manifest and of lists that name it read as before, if anything, are these, and no
  -- list names its own digest. Package json reads back the entries that it wrote.
  pub manifest_put-IsListed :
      (conf : Config) (times : PutTimes) (arg : String) (r : PutRequest) (opened : Option Error)
      (s : System D A) (d subject : D) (raw : Bytes) (tags : List String)
      (b : ReadsBack lib.blobs.writer.digests lib.json)
      → Verifies lib.blobs.writer
      → lib.blobs.writer.digests.to_string subject ≢ ""
      → lib.blobs.writer.digests.is_zero d ≡ false
      → FreeWith d s.repo
      → Legible s.repo
      → NoClash lib.blobs d raw s.repo
      → NoLoop d
      → is_readable lib.blobs.writer.digests (lib.json.fill_index raw empty_response) ≡ true
      → read_limited conf.api.manifest.limit r.body r.error ≡ ok raw
      → (manifest_put lib conf times arg r opened s).1 ≡ created d tags (some subject)
      → IsListed subject d raw (manifest_put lib conf times arg r opened s).0
  manifest_put-IsListed conf times arg r opened s d subject raw tags b v z y fr le n u w l h =
      let p = created-Passed lib conf times arg r opened s d raw tags (some subject) l h in
      let mt = type_of lib p.target.media_type raw in
      let s' = (check_content lib conf mt raw d s).0 in
      let quiet = (Quiet-check lib conf mt raw d s).reads in
      subst (λ x. IsListed subject d raw x.0) (sym p.stored)
        (store-IsListed times mt p.target.tags tags raw d subject p.checked s' b v z y
          (λ ds m i text dig same q g bs k. fr ds m i text dig same q g bs (sym (quiet dig) ∙ k))
          (λ j bs k. le j bs (sym (quiet j) ∙ k)) (λ bs k. n bs (sym (quiet d) ∙ k)) u w
          (λ desc k. check-referrer conf mt raw d subject s p.checked desc p.content k)
          (sym (ap (λ x. x.1) p.stored) ∙ h))
