-- ===== src/Referrers/Serve.antt =====
-- referrer.go: the answer to a request for the referrers of a subject, and the cache of its pages.
use olareg.Shared.{
  ℕ, ◌+◌, String, List, [], ◌∷◌, Option, none, some, Bool, true, false, ◌&&◌, ◌||◌, not, ◌≡◌, ◌↔◌,
  Comparable, ◌==◌, ==_iff, string_comparable, nat_eqb, ltb, leb, arith, if◌then◌else◌,
}
use olareg.Shared.Int.{ℤ, exceeds}
use olareg.Shared.Numerals.{page_number}
use olareg.Shared.Slices.{length, get_elem?}
use olareg.Types.Error.{Error, Result, ok, err}
use olareg.Types.Digest.{Bytes}
use olareg.Types.Descriptor.{annotation_at, annot_referrer_convert, annot_referrer_subject}
use olareg.Types.Json.{Json}
use olareg.Types.Referrer.{get_by_annotation}
use olareg.Cache
use olareg.Cache.{Cache}
use olareg.Store.Mem.{blob_get}
use olareg.Store.System.{System, with_repo}
use olareg.Response.{Failure, failure, bare_failure}
use olareg.Blobs.{BlobLib}
use olareg.Referrers.{referrer_filter, referrer_split}

pub record ReferrerKey (D : Type 0) : Type 0 where
  pub dig : D
  pub artifact_type : String

module _ {D : Type 0} ⦃e : Comparable D⦄ where
  abbrev pub key_equal : ReferrerKey D → ReferrerKey D → Bool
  key_equal a b = a.dig == b.dig && a.artifact_type == b.artifact_type

  pub key_equal_iff : (a b : ReferrerKey D) → (key_equal a b ≡ true) ↔ (a ≡ b)
  key_equal_iff a b = ground (arith, ==_iff a.dig b.dig, ==_iff a.artifact_type b.artifact_type)

  instance abbrev pub key_comparable : Comparable (ReferrerKey D)
  key_comparable = record { equal = key_equal; equal_iff = key_equal_iff }

abbrev pub PageCache : Type 0 → Type 0
PageCache D = Cache (ReferrerKey D) (List Bytes)

pub record ReferrerQuery : Type 0 where
  pub artifact_type : String
  pub cache : String
  pub page : String

-- What the link to the next page sets in the query of the request.
pub record NextPage : Type 0 where
  pub cache : String
  pub page : ℕ

pub data Reply : Type 0 where
  -- 200 with an index without manifests
  empty_index : Reply
  failed : Failure → Reply
  -- 200 with a document, the link, and whether the header on the filter is set
  document : Bytes → Option NextPage → Bool → Reply
  -- an index out of range
  panics : Reply

-- `if page+1 < len(pages) { … }`
abbrev pub link_after : String → ℕ → List Bytes → Option NextPage
link_after cache page pages =
    if ltb (page + 1) (length pages) then some (record { cache = cache; page = page + 1 }) else none

unfoldable pub page_reply : String → ℕ → List Bytes → Bool → Reply
page_reply cache page pages filtered = elim (get_elem? pages page) [
  | none ↦ panics
  | some out ↦ document out (link_after cache page pages) filtered
]

module _ {D A : Type 0} ⦃e : Comparable D⦄ (lib : BlobLib D A) (json : Json D) (limit : ℤ)
    (now : ℕ) where
  -- The content of the list, filtered if the request has a filter.
  unfoldable pub filtered : String → Result Bytes → Result Bytes
  filtered filter (err x) = err x
  filtered filter (ok raw) = if filter == "" then ok raw else referrer_filter json raw filter

  -- The pages of a content, one where it is not too long; an error of the split leaves none.
  unfoldable pub to_pages : Bytes → List Bytes
  to_pages out =
      if exceeds (length out) limit
      then (elim (referrer_split json out limit) [ err _ ↦ [] | ok (pages, _) ↦ pages ])
      else out ∷ []

  -- The page that is sent of a new split.
  unfoldable pub chosen_page : ReferrerQuery → ℕ → String → List Bytes → ℕ
  chosen_page q page dig pages =
      if ltb 0 page && (not (q.cache == dig) || leb (length pages) page) then 0 else page

  -- The content is cached as pages, one of which is sent.
  unfoldable pub send_content :
      ReferrerQuery → ℕ → D → Result Bytes → PageCache D → PageCache D × Reply
  send_content q page dig (err _) c = (c, empty_index)
  send_content q page dig (ok out) c =
      let pages = to_pages out in
      let text = lib.writer.digests.to_string dig in
      let key : ReferrerKey D = record { dig = dig; artifact_type = q.artifact_type } in
      let number = if exceeds (length out) limit then chosen_page q page text pages else 0 in
      elim pages [
        | [] ↦ (c, empty_index)
        | p ∷ ps ↦ (
          (Cache.set now key (p ∷ ps) c).0,
          page_reply text number (p ∷ ps) (not (q.artifact_type == "")),
        )
      ]

  -- The list that the index names for the subject.
  unfoldable pub serve_list :
      ReferrerQuery → ℕ → D → System D A → PageCache D → (System D A × PageCache D) × Reply
  serve_list q page dig s c =
      let key : ReferrerKey D = record { dig = dig; artifact_type = q.artifact_type } in
      let got = Cache.get now key c in
      let text = lib.writer.digests.to_string dig in
      elim got.1 [
        | ok pages ↦
            ((s, got.0), page_reply text (if leb (length pages) page then 0 else page) pages false)
        | err _ ↦
            let r = blob_get lib.writer.digests dig s.repo in
            let sent = send_content q page dig (filtered q.artifact_type r.1) got.0 in
            ((with_repo r.0 s, sent.0), sent.1)
      ]

  -- `referrerGet` after the search for a cached page.
  unfoldable pub serve_current :
      ReferrerQuery → ℕ → String → System D A → PageCache D → (System D A × PageCache D) × Reply
  serve_current q page arg s c =
      if not (annotation_at s.repo.index.index.annotations annot_referrer_convert == "true")
      then ((s, c), failed (bare_failure 404))
      else (elim (get_by_annotation annot_referrer_subject arg s.repo.index.index) [
        | err _ ↦ ((s, c), empty_index)
        | ok d ↦ serve_list q page d.digest s c
      ])

  -- A page of an answer before, if it is cached; its link keeps the digest of the request.
  unfoldable pub cached_page : ReferrerQuery → ℕ → Result (List Bytes) → Option Reply
  cached_page q page (err _) = none
  cached_page q page (ok pages) =
      if ltb page (length pages) then some (page_reply q.cache page pages false) else none

  -- `referrerGet`
  unfoldable pub referrer_get :
      ReferrerQuery
      → String
      → Option Error
      → System D A
      → PageCache D
      → (System D A × PageCache D) × Reply
  referrer_get q arg opened s c =
      let page = page_number q.page in
      elim opened [
        | some _ ↦ ((s, c), empty_index)
        | none ↦
            if q.cache == "" || nat_eqb page 0
            then serve_current q page arg s c
            else (elim (lib.writer.digests.parse q.cache) [
              | err _ ↦ ((s, c), failed (failure 400 "UNSUPPORTED"))
              | ok dig ↦
                  let key : ReferrerKey D = record { dig = dig; artifact_type = q.artifact_type } in
                  let got = Cache.get now key c in
                  elim (cached_page q page got.1) [
                    | some reply ↦ ((s, got.0), reply)
                    | none ↦ serve_current q page arg s got.0
                  ]
            ])
      ]
