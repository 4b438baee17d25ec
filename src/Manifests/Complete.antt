-- ===== src/Manifests/Complete.antt =====
-- What is stored already where a manifest is accepted (manifest.go).
use olareg.Shared.{
  ℕ, zero, suc, refl, none, some, false, ◌≢◌, ◌⊎◌, subst, String, List, [], ◌∷◌, Option, true, ◌≡◌,
  sym, ap, ◌∙◌, Comparable, ◌==◌, ==_iff, string_comparable, arith, Bool-cases, inl, inr,
}
use olareg.Shared.Cutting.{before, to_lower, trim_space}
use olareg.Shared.Members.{contains}
use olareg.Shared.Slices.{any, get_elem?}
use olareg.Types.Error.{Error, ok, Result-cases}
use olareg.Types.Digest.{Bytes}
use olareg.Types.Descriptor.{Descriptor, Index, Manifest}
use olareg.Types.MediaType.{
  media_type_image, media_type_index, media_type_foreign, docker2_manifest_list, oci1_manifest_list,
}
use olareg.Config.{Config}
use olareg.Store.Mem.{blob_get, is_set}
use olareg.Store.Reads.{read}
use olareg.Store.System.{System, with_repo}
use olareg.Blobs.Mounts.{read-blob_get}
use olareg.Manifests.{
  ManifestLib, PutRequest, created, Target, Checked, parse_arg, parse_put, read_limited,
}
use olareg.Manifests.Check.{
  no_urls, layer_blobs, missing, image_blobs, index_blobs, manifest_verify_image,
  manifest_verify_index, unless_missing, check_image, check_index, check_content,
}
use olareg.Manifests.Put.{PutTimes, type_of, manifest_put}
use olareg.Manifests.Passed.{created-Passed}

-- The media types of layers that need not be stored here.
abbrev pub foreign_types : List String
foreign_types =
    "application/vnd.docker.image.rootfs.foreign.diff.tar.gzip"
    ∷ "application/vnd.oci.image.layer.nondistributable.v1.tar"
    ∷ "application/vnd.oci.image.layer.nondistributable.v1.tar+gzip"
    ∷ "application/vnd.oci.image.layer.nondistributable.v1.tar+zstd" ∷ []

module _ {D : Type 0} where
  abbrev pub HasNoUrls : Descriptor D → Type 0
  HasNoUrls d = (d.urls ≡ none) ⊎ (d.urls ≡ some [])

  no_urls-is : (d : Descriptor D) → HasNoUrls d → no_urls d.urls ≡ true
  no_urls-is d (inl h) = ground arith
  no_urls-is d (inr h) = ground arith

module _ {D A : Type 0} ⦃e : Comparable D⦄ ⦃f : Comparable A⦄ (lib : ManifestLib D A) where
  -- A digest can be read.
  abbrev pub IsStored : D → System D A → Type 0
  IsStored j s = (bs : Bytes) × (read lib.blobs.writer.digests j s.repo ≡ ok bs)

  missing-none :
      (ds : List D) (s : System D A) (j : D)
      → (missing lib ds s).1 ≡ []
      → contains ds j ≡ true
      → IsStored j s
  unfolding missing any
  missing-none [] s j h m = ground arith
  missing-none (d ∷ ds) s j h m =
      let r = blob_get lib.blobs.writer.digests d s.repo in
      elim (Result-cases r.1) [
        | inl (x, q) ↦ ground arith
        | inr (bs, q) ↦ elim (Bool-cases (d == j)) [
          | inl k ↦
              (bs, ap (λ i. read lib.blobs.writer.digests i s.repo) (sym ((==_iff d j).0 k)) ∙ q)
          | inr k ↦
              let rest = missing-none ds (with_repo r.0 s) j (ground arith) (ground arith) in
              (rest.0, sym (read-blob_get lib.blobs.writer.digests d j s.repo) ∙ rest.1)
        ]
      ]

  -- A manifest cannot be accepted without the blob of a digest: that of the configuration of an image
  -- or of one of its layers, unless it has addresses or the media type of the layer is foreign, or
  -- that of an entry of an index; not where sparse images or indexes are allowed.
  pub data Needs (conf : Config) (mt : String) (raw : Bytes) : D → Type 0 where
    config :
        (m : Manifest D)
        → media_type_image mt ≡ true
        → lib.json.decode_manifest raw ≡ ok m
        → is_set conf.api.manifest.sparse_image ≡ false
        → HasNoUrls m.config
        → Needs conf mt raw m.config.digest
    layer :
        (m : Manifest D) (k : ℕ) (l : Descriptor D)
        → media_type_image mt ≡ true
        → lib.json.decode_manifest raw ≡ ok m
        → is_set conf.api.manifest.sparse_image ≡ false
        → get_elem? m.layers k ≡ some l
        → HasNoUrls l
        → ((n : ℕ) → get_elem? foreign_types n ≢ some l.media_type)
        → Needs conf mt raw l.digest
    entry :
        (i : Index D) (k : ℕ) (x : Descriptor D)
        → media_type_index mt ≡ true
        → lib.json.decode_index raw ≡ ok i
        → is_set conf.api.manifest.sparse_index ≡ false
        → get_elem? i.manifests k ≡ some x
        → Needs conf mt raw x.digest

  image_index : (mt : String) → media_type_index mt ≡ true → media_type_image mt ≡ false
  unfolding media_type_image media_type_index
  image_index mt h = elim (Bool-cases (mt == docker2_manifest_list)) [
    | inl q ↦
        subst (λ x. media_type_image x ≡ false) (sym ((==_iff mt docker2_manifest_list).0 q)) refl
    | inr q ↦
        subst (λ x. media_type_image x ≡ false)
          (sym ((==_iff mt oci1_manifest_list).0 (ground arith))) refl
  ]

  local_type :
      (mt : String)
      → ((n : ℕ) → get_elem? foreign_types n ≢ some mt)
      → media_type_foreign mt ≡ false
  unfolding media_type_foreign get_elem?
  local_type mt h = ground (
    arith,
    h 0,
    h 1,
    h 2,
    h 3,
    ==_iff mt "application/vnd.docker.image.rootfs.foreign.diff.tar.gzip",
    ==_iff mt "application/vnd.oci.image.layer.nondistributable.v1.tar",
    ==_iff mt "application/vnd.oci.image.layer.nondistributable.v1.tar+gzip",
    ==_iff mt "application/vnd.oci.image.layer.nondistributable.v1.tar+zstd",
  )

  contains-layer_blobs :
      (ls : List (Descriptor D)) (k : ℕ) (l : Descriptor D)
      → get_elem? ls k ≡ some l
      → no_urls l.urls ≡ true
      → media_type_foreign l.media_type ≡ false
      → contains (layer_blobs ls) l.digest ≡ true
  unfolding layer_blobs any get_elem?
  contains-layer_blobs [] k l h u g = ground arith
  contains-layer_blobs (x ∷ ls) zero l h u g = ground (arith, ==_iff l.digest l.digest)
  contains-layer_blobs (x ∷ ls) (suc k) l h u g = ground (arith, contains-layer_blobs ls k l)

  contains-index_blobs :
      (ds : List (Descriptor D)) (k : ℕ) (x : Descriptor D)
      → get_elem? ds k ≡ some x
      → contains (index_blobs ds) x.digest ≡ true
  unfolding index_blobs any get_elem?
  contains-index_blobs [] k x h = ground arith
  contains-index_blobs (d ∷ ds) zero x h = ground (arith, ==_iff x.digest x.digest)
  contains-index_blobs (d ∷ ds) (suc k) x h = ground (arith, contains-index_blobs ds k x)

  -- A content that passes has nothing missing.
  passed_image :
      (conf : Config) (mt : String) (raw : Bytes) (d : D) (s : System D A) (c : Checked D)
      (m : Manifest D)
      → (check_content lib conf mt raw d s).1 ≡ inr c
      → media_type_image mt ≡ true
      → lib.json.decode_manifest raw ≡ ok m
      → is_set conf.api.manifest.sparse_image ≡ false
      → (missing lib (image_blobs m) s).1 ≡ []
  unfolding check_content check_image manifest_verify_image unless_missing
  passed_image conf mt raw d s c m h k q g = ground arith

  passed_index :
      (conf : Config) (mt : String) (raw : Bytes) (d : D) (s : System D A) (c : Checked D)
      (i : Index D)
      → (check_content lib conf mt raw d s).1 ≡ inr c
      → media_type_index mt ≡ true
      → lib.json.decode_index raw ≡ ok i
      → is_set conf.api.manifest.sparse_index ≡ false
      → (missing lib (index_blobs i.manifests) s).1 ≡ []
  unfolding check_content check_index manifest_verify_index unless_missing
  passed_index conf mt raw d s c i h k q g = ground (arith, image_index mt)

  Needs-IsStored :
      (conf : Config) (mt : String) (raw : Bytes) (d : D) (s : System D A) (c : Checked D) {j : D}
      → (check_content lib conf mt raw d s).1 ≡ inr c
      → Needs conf mt raw j
      → IsStored j s
  unfolding image_blobs any
  Needs-IsStored conf mt raw d s c h (config m t q g u) =
      missing-none (image_blobs m) s m.config.digest (passed_image conf mt raw d s c m h t q g)
        (ground (arith, no_urls-is m.config u, ==_iff m.config.digest m.config.digest))
  Needs-IsStored conf mt raw d s c h (layer m k l t q g a u n) =
      let member =
        contains-layer_blobs m.layers k l a (no_urls-is l u) (local_type l.media_type n) in
      missing-none (image_blobs m) s l.digest (passed_image conf mt raw d s c m h t q g)
        (ground arith)
  Needs-IsStored conf mt raw d s c h (entry i k x t q g a) =
      missing-none (index_blobs i.manifests) s x.digest (passed_index conf mt raw d s c i h t q g)
        (contains-index_blobs i.manifests k x a)

  header_type :
      (conf : Config) (arg : String) (r : PutRequest) (t : Target D)
      → parse_put lib conf arg r ≡ inr t
      → t.media_type ≡ trim_space (to_lower (before b';' r.content_type))
  unfolding parse_put parse_arg
  header_type conf arg r t h = ground arith

  -- The media type that `manifestPut` works with.
  abbrev pub put_type : PutRequest → Bytes → String
  put_type r raw = type_of lib (trim_space (to_lower (before b';' r.content_type))) raw

  -- Where `manifestPut` answers 201, every blob that the manifest needs can be read: the configuration
  -- and the layers of an image, but for what has addresses and layers of a foreign media type, and the
  -- entries of an index; none where sparse images or indexes are allowed.
  pub manifest_put-IsStored :
      (conf : Config) (times : PutTimes) (arg : String) (r : PutRequest) (opened : Option Error)
      (s : System D A) (d : D) (raw : Bytes) (tags : List String) (subject : Option D) (j : D)
      → read_limited conf.api.manifest.limit r.body r.error ≡ ok raw
      → (manifest_put lib conf times arg r opened s).1 ≡ created d tags subject
      → Needs conf (put_type r raw) raw j
      → IsStored j s
  manifest_put-IsStored conf times arg r opened s d raw tags subject j b h k =
      let p = created-Passed lib conf times arg r opened s d raw tags subject b h in
      let same : type_of lib p.target.media_type raw ≡ put_type r raw =
        ap (λ mt. type_of lib mt raw) (header_type conf arg r p.target p.parsed) in
      let passed =
        subst (λ mt. (check_content lib conf mt raw d s).1 ≡ inr p.checked) same p.content in
      Needs-IsStored conf (put_type r raw) raw d s p.checked passed k
