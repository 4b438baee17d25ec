-- ===== src/Manifests/Stored.antt =====
-- A manifest that is pushed by a tag is the answer to a request for the tag (manifest.go).
use olareg.Shared.{
  ℕ, String, List, [], ◌∷◌, Option, none, some, true, ◌≡◌, ◌≢◌, refl, sym, ap, ◌∙◌, Comparable,
  ==_iff, string_comparable, arith, Option-cases, inl, inr, subst,
}
use olareg.Shared.GoMap
use olareg.Types.Error.{Error, ok}
use olareg.Types.Digest.{Bytes}
use olareg.Types.Descriptor.{
  Descriptor, annotation_val, text_at, annot_ref_name, annot_referrer_subject,
}
use olareg.Types.MediaType.{media_type_accepts}
use olareg.Types.Tag.{ref_tag_re}
use olareg.Types.Layout.{Clock, LayoutIndexOpt}
use olareg.Types.Layout.Operations.{get_desc, add_desc}
use olareg.Types.Layout.Tags.{get_desc-add_desc_self}
use olareg.Config.{Config}
use olareg.Store.{Verifies}
use olareg.Store.Mem.{MemRepo, blob_get, load, load_file, index_insert}
use olareg.Store.Reads.{read}
use olareg.Store.System.{System, with_repo}
use olareg.Documents.{push_document}
use olareg.Documents.Stored.{NoClash, push-Reads}
use olareg.Manifests.{
  ManifestLib, PutRequest, content, created, Target, Checked, parse_arg, parse_put, read_limited,
}
use olareg.Manifests.Check.{check_content}
use olareg.Manifests.Put.{
  PutTimes, put_desc, insert_tags, insert_manifest, finish_put, store_put, type_of, manifest_put,
}
use olareg.Manifests.Serve.{find_desc, send_manifest, manifest_get}
use olareg.Manifests.Refused.{Quiet-check}
use olareg.Manifests.Passed.{created-Passed}

module _ {D : Type 0} ⦃e : Comparable D⦄ where
  tag_of :
      (mt : String) (d : D) (raw : Bytes) (t : String)
      → annotation_val (put_desc mt d raw (some t)) annot_ref_name ≡ t
  unfolding annotation_val text_at GoMap.lookup
  tag_of mt d raw t = refl

  plain :
      (mt : String) (d : D) (raw : Bytes) (t : String)
      → annotation_val (put_desc mt d raw (some t)) annot_referrer_subject ≡ ""
  unfolding annotation_val text_at GoMap.lookup
  plain mt d raw t = refl

  pub index_insert-index :
      (clock : Clock) (now : ℕ) (d : Descriptor D) (opts : List (LayoutIndexOpt D)) (mr : MemRepo D)
      → (index_insert clock now d opts mr).1 ≡ none
      → (index_insert clock now d opts mr).0.index ≡ add_desc clock d opts mr.index
  unfolding index_insert
  index_insert-index clock now d opts mr h = ground arith

module _ {D A : Type 0} ⦃e : Comparable D⦄ ⦃f : Comparable A⦄ (lib : ManifestLib D A) where
  pub insert-reads :
      (clock : Clock) (now : ℕ) (d : Descriptor D) (opts : List (LayoutIndexOpt D)) (mr : MemRepo D)
      (j : D)
      → read lib.blobs.writer.digests j (index_insert clock now d opts mr).0
        ≡ read lib.blobs.writer.digests j mr
  unfolding index_insert blob_get load load_file
  insert-reads clock now d opts mr j = ground arith

  -- The tag resolves to the digest, which reads as the content.
  record Tagged (arg : String) (d : D) (raw : Bytes) (s : System D A) : Type 0 where
    entry : Descriptor D
    found : get_desc lib.blobs.writer.digests arg s.repo.index ≡ ok entry
    same : entry.digest ≡ d
    reads : read lib.blobs.writer.digests d s.repo ≡ ok raw

  insert-Tagged :
      (times : ℕ → Clock × ℕ) (opts : List (LayoutIndexOpt D)) (mt : String) (d : D) (raw : Bytes)
      (arg : String) (s : System D A)
      → ref_tag_re arg ≡ true
      → read lib.blobs.writer.digests d s.repo ≡ ok raw
      → (insert_manifest times opts (put_desc mt d raw) (arg ∷ []) s.repo).1 ≡ none
      → Tagged arg d raw
          (with_repo (insert_manifest times opts (put_desc mt d raw) (arg ∷ []) s.repo).0 s)
  unfolding insert_manifest insert_tags
  insert-Tagged times opts mt d raw arg s t h k =
      let desc = put_desc mt d raw (some arg) in
      let clock = (times 0).0 in
      elim (Option-cases (index_insert clock (times 0).1 desc opts s.repo).1) [
        | inr (x, q) ↦ ground arith
        | inl q ↦
            let at = tag_of mt d raw arg in
            let now = index_insert-index clock (times 0).1 desc opts s.repo q in
            let found =
              get_desc-add_desc_self clock desc opts s.repo.index (plain mt d raw arg)
                lib.blobs.writer.digests (ap ref_tag_re at ∙ t) in
            let li = add_desc clock desc opts s.repo.index in
            rw (q, insert_manifest, insert_tags)
              (record {
                entry = found.0;
                found =
                    ap (get_desc lib.blobs.writer.digests arg) now
                    ∙ ap (λ x. get_desc lib.blobs.writer.digests x li) (sym at)
                    ∙ found.1;
                same = found.2;
                reads = insert-reads clock (times 0).1 desc opts s.repo d ∙ h;
              })
      ]

  store-Tagged :
      (times : PutTimes) (mt arg : String) (raw : Bytes) (d x : D) (tags : List String)
      (c : Checked D) (s : System D A)
      → Verifies lib.blobs.writer
      → NoClash lib.blobs d raw s.repo
      → ref_tag_re arg ≡ true
      → (store_put lib times mt (arg ∷ []) raw d c s).1 ≡ created x tags none
      → Tagged arg d raw (store_put lib times mt (arg ∷ []) raw d c s).0
  unfolding store_put finish_put
  store-Tagged times mt arg raw d x tags c s v n t h =
      let pushed = push_document lib.blobs times.start d raw s in
      elim (Option-cases pushed.1) [
        | inr (y, q) ↦ ground arith
        | inl q ↦
            let r =
              insert_manifest times.inserts c.opts (put_desc mt d raw) (arg ∷ []) pushed.0.repo in
            elim (Option-cases r.1) [
              | inr (y, k) ↦ ground arith
              | inl k ↦
                  let now =
                    push-Reads lib.blobs times.start d raw s v n q d
                    ∙ rw ((==_iff d d).1 refl) refl in
                  let a = insert-Tagged times.inserts c.opts mt d raw arg pushed.0 t now k in
                  elim (Option-cases c.referrer) [
                    | inl z ↦ rw (q, k, z, store_put) a
                    | inr (w, z) ↦ ground arith
                  ]
            ]
      ]

  get-Tagged :
      (arg : String) (d : D) (raw : Bytes) (s : System D A)
      → lib.blobs.writer.digests.to_string d ≢ ""
      → Tagged arg d raw s
      → (mt : String) × ((manifest_get lib arg [] none s).1 ≡ content d mt raw)
  unfolding manifest_get find_desc send_manifest media_type_accepts
  get-Tagged arg d raw s n a = (
    a.entry.media_type,
    ground (arith, a.found, a.same, a.reads, ==_iff (lib.blobs.writer.digests.to_string d) ""),
  )

  -- What `manifestPut` takes from the request for a tag.
  tag-target :
      (conf : Config) (arg : String) (r : PutRequest) (t : Target D)
      → ref_tag_re arg ≡ true
      → parse_put lib conf arg r ≡ inr t
      → t.tags ≡ arg ∷ []
  unfolding parse_put parse_arg
  tag-target conf arg r t h k = ground arith

  put-Tagged :
      (conf : Config) (times : PutTimes) (arg : String) (r : PutRequest) (opened : Option Error)
      (s : System D A) (d : D) (raw : Bytes) (tags : List String)
      → Verifies lib.blobs.writer
      → read_limited conf.api.manifest.limit r.body r.error ≡ ok raw
      → NoClash lib.blobs d raw s.repo
      → ref_tag_re arg ≡ true
      → (manifest_put lib conf times arg r opened s).1 ≡ created d tags none
      → Tagged arg d raw (manifest_put lib conf times arg r opened s).0
  put-Tagged conf times arg r opened s d raw tags v b n t h =
      let p = created-Passed lib conf times arg r opened s d raw tags none b h in
      let mt = type_of lib p.target.media_type raw in
      let s' = (check_content lib conf mt raw d s).0 in
      let done =
        p.stored
        ∙ ap (λ ts. store_put lib times mt ts raw d p.checked s')
            (tag-target conf arg r p.target t p.parsed) in
      subst (λ x. Tagged arg d raw x.0) (sym done)
        (store-Tagged times mt arg raw d d tags p.checked s' v
          (λ bs k. n bs (sym ((Quiet-check lib conf mt raw d s).reads d) ∙ k)) t
          (sym (ap (λ x. x.1) done) ∙ h))

  -- After `manifestPut` answers 201 for a tag and a manifest without subject, a request for the tag that
  -- accepts anything is answered with the digest and the content that was pushed. What the digest reads as
  -- before, if anything, is that content.
  pub manifest_get-manifest_put :
      (conf : Config) (times : PutTimes) (arg : String) (r : PutRequest) (opened : Option Error)
      (s : System D A) (d : D) (raw : Bytes) (tags : List String)
      → Verifies lib.blobs.writer
      → read_limited conf.api.manifest.limit r.body r.error ≡ ok raw
      → NoClash lib.blobs d raw s.repo
      → lib.blobs.writer.digests.to_string d ≢ ""
      → ref_tag_re arg ≡ true
      → (manifest_put lib conf times arg r opened s).1 ≡ created d tags none
      → (mt : String) × ((manifest_get lib arg [] none
            (manifest_put lib conf times arg r opened s).0).1
          ≡ content d mt raw)
  manifest_get-manifest_put conf times arg r opened s d raw tags v b n z t h =
      get-Tagged arg d raw (manifest_put lib conf times arg r opened s).0 z
        (put-Tagged conf times arg r opened s d raw tags v b n t h)
