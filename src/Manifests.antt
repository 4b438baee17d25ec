-- ===== src/Manifests.antt =====
-- manifest.go: what the handlers of manifests take from a request and answer, and what a push asks
-- for.
pub mod Check
pub mod Put
pub mod Serve
pub mod Removed
pub mod Refused
pub mod Passed
pub mod Stored
pub mod Complete
pub mod Listed
mod Tests
use olareg.Shared.{
  ℕ, suc, String, List, [], ◌∷◌, ◌++◌, Option, none, some, Bool, true, false, ◌&&◌, ◌||◌, not,
  Comparable, ◌==◌, string_comparable, if◌then◌else◌, leb, ltb, ◌⊎◌, inl, inr,
}
use olareg.Shared.Int.{ℤ, pos, negsuc}
use olareg.Shared.Cutting.{before, to_lower, trim_space}
use olareg.Shared.Slices.{length, take, any}
use olareg.Types.Error.{Error, Result, ok, err}
use olareg.Types.Digest.{Bytes}
use olareg.Types.Descriptor.{Descriptor, Index, Manifest, annot_ref_name}
use olareg.Types.Json.{Json}
use olareg.Types.MediaType.{
  docker2_manifest, docker2_manifest_list, oci1_manifest, oci1_manifest_list, media_type_image,
  media_type_index, media_type_foreign, media_type_detect,
}
use olareg.Types.Tag.{ref_tag_re}
use olareg.Types.Layout.{LayoutIndexOpt, layout_with_children}
use olareg.Config.{Config}
use olareg.Store.Mem.{is_set, blob_get}
use olareg.Store.System.{System, with_repo}
use olareg.Response.{Failure, failure, bare_failure}
use olareg.Blobs.{BlobLib}
use olareg.Blobs.Handlers.{digest_invalid}

-- What the handlers take from other packages: also `a.FromBytes`, and a Decoder that reads an index.
pub record ManifestLib (D A : Type 0) : Type 0 where
  pub blobs : BlobLib D A
  pub json : Json D
  pub from_bytes : A → Bytes → Result D
  pub read_index : Bytes → Result (Index D)

-- The parts of a request that puts a manifest: the header `content-type`, the length, the query, and
-- the bytes of the body with the error that ends it.
pub record PutRequest : Type 0 where
  pub content_type : String
  pub content_length : ℤ
  pub digest : String
  pub tags : List String
  pub body : Bytes
  pub error : Option Error

pub data Reply (D : Type 0) : Type 0 where
  failed : Failure → Reply D
  -- 400 with an error MANIFEST_BLOB_UNKNOWN for each digest
  missing_blobs : List D → Reply D
  -- `http.ServeContent` with a digest, its media type and content
  content : D → String → Bytes → Reply D
  accepted : Reply D
  -- 201, with the location of the digest, the tags, and the subject if there is one
  created : D → List String → Option D → Reply D

abbrev pub manifest_invalid : ℕ → Failure
manifest_invalid status = failure status "MANIFEST_INVALID"

abbrev pub unsupported : Failure
unsupported = failure 400 "UNSUPPORTED"

-- `n > limit`
abbrev pub greater : ℤ → ℤ → Bool
greater (pos n) (pos limit) = ltb limit n
greater (pos n) (negsuc limit) = true
greater (negsuc n) (pos limit) = false
greater (negsuc n) (negsuc limit) = ltb n limit

-- `io.ReadAll` of an `io.LimitReader`: the error of the body is met below the limit only.
unfoldable pub read_limited : ℤ → Bytes → Option Error → Result Bytes
read_limited (negsuc _) body error = ok []
read_limited (pos limit) body error =
    if leb limit (length body)
    then ok (take limit body)
    else (elim error [ none ↦ ok body | some x ↦ err x ])

-- The media types that a request may say, the empty text for none.
unfoldable pub known_type : String → Bool
known_type mt = mt == "" || (media_type_image mt || media_type_index mt)

-- What the headers and parameters ask for; `expect` is the zero digest where none is expected.
pub record Target (D : Type 0) : Type 0 where
  pub media_type : String
  pub expect : D
  pub tags : List String

-- What is known of a manifest once it is checked: the options of `IndexInsert`, and the subject with
-- the descriptor for the list of its referrers.
pub record Checked (D : Type 0) : Type 0 where
  pub opts : List (LayoutIndexOpt D)
  pub referrer : Option (D × Descriptor D)

module _ {D A : Type 0} (lib : ManifestLib D A) where
  -- `dExpect` as the query says
  unfoldable pub query_digest : String → Result D
  query_digest d_str =
      if d_str == ""
      then ok lib.blobs.writer.digests.zero_digest
      else lib.blobs.writer.digests.parse d_str

  -- The last part of the request is a tag, or the digest that is expected.
  unfoldable pub parse_arg : String → String → D → List String → Failure ⊎ Target D
  parse_arg arg mt expect tags =
      if ref_tag_re arg
      then (elim tags [
        | _ ∷ _ ↦ inl unsupported
        | [] ↦ inr (record { media_type = mt; expect = expect; tags = arg ∷ [] })
      ])
      else (elim (lib.blobs.writer.digests.parse arg) [
        | err _ ↦ inl digest_invalid
        | ok d ↦ inr (record { media_type = mt; expect = d; tags = tags })
      ])

  -- `manifestPut` up to the reading of the body.
  unfoldable pub parse_put : Config → String → PutRequest → Failure ⊎ Target D
  parse_put conf arg r =
      let mt = trim_space (to_lower (before b';' r.content_type)) in
      if not (known_type mt)
      then inl (manifest_invalid 400)
      else if greater r.content_length conf.api.manifest.limit
      then inl (manifest_invalid 413)
      else (elim (query_digest r.digest) [
        | err _ ↦ inl digest_invalid
        | ok expect ↦
            if any (λ t. not (ref_tag_re t)) r.tags
            then inl unsupported
            else parse_arg arg mt expect r.tags
      ])

module _ {D A : Type 0} ⦃e : Comparable D⦄ (lib : ManifestLib D A) where
  -- The content is read, and its digest is the one that is expected, if one is.
  unfoldable pub read_put : Config → D → PutRequest → Failure ⊎ (Bytes × D)
  read_put conf expect r =
      let any_digest = lib.blobs.writer.digests.is_zero expect in
      let algo =
        if any_digest then lib.blobs.writer.canonical else lib.blobs.writer.algorithm expect in
      elim (read_limited conf.api.manifest.limit r.body r.error) [
        | err _ ↦ inl (bare_failure 500)
        | ok raw ↦ elim (lib.from_bytes algo raw) [
          | err _ ↦ inl (bare_failure 500)
          | ok d ↦ if not any_digest && not (d == expect) then inl digest_invalid else inr (raw, d)
        ]
      ]
