-- ===== src/Blobs/Posts.antt =====
-- blob.go: the start of an upload, which may mount a blob of another repository or bring the whole
-- content. The registry has every repository as `RepoGet` makes or finds it.
use olareg.Shared.{
  ℕ, String, List, [], ◌∷◌, ◌++◌, Option, none, some, ◌&&◌, not, Comparable, ◌==◌,
  string_comparable, if◌then◌else◌,
}
use olareg.Shared.Slices.{length}
use olareg.Types.Error.{Error, Result, ok, err, blob_exists, ◌>>=◌}
use olareg.Types.Digest.{Bytes}
use olareg.Config.{Config}
use olareg.Store.{BlobOpt, blob_with_algorithm, blob_with_digest}
use olareg.Store.Mem.{is_set, blob_get}
use olareg.Store.Upload.{MemRepoUpload, cancel, close, blob_create}
use olareg.Store.System.{System, with_repo, add_upload}
use olareg.Response.{bare_failure, repo_failure}
use olareg.Blobs.{BlobLib, Body, Reply, failed, created, started}
use olareg.Blobs.Handlers.{copy, digest_invalid, denied, put_back, store_body}

abbrev pub Registry : Type 0 → Type 0 → Type 0
Registry D A = String → System D A

abbrev pub set_system : {D A : Type 0} → String → System D A → Registry D A → Registry D A
set_system name s reg = λ other. if name == other then s else reg other

-- `now` is the time of `BlobCreate`, and `later` of `Close`, and of the write of a mount; `session` is
-- what `genSessionID` returns.
pub record Start : Type 0 where
  pub now : ℕ
  pub later : ℕ
  pub session : Result String

pub record PostQuery : Type 0 where
  pub mount : String
  pub from : String
  pub digest_algorithm : String
  pub digest : String

-- A content that is written at once, if it is not empty.
abbrev pub whole : ℕ → Bytes → Body
whole now [] = record { chunks = []; error = none }
whole now (b ∷ bs) = record { chunks = (now, b ∷ bs) ∷ []; error = none }

module _ {D A : Type 0} ⦃e : Comparable D⦄ (lib : BlobLib D A) where
  -- `BlobCreate` on a repository with its uploads, with the address of the new upload.
  unfoldable pub create :
      Start → List (BlobOpt D A) → System D A → System D A × Result (ℕ × MemRepoUpload D A)
  create start opts s =
      let ref = length s.heap in
      let r = blob_create lib.writer start.now ref start.session opts s.repo in
      (add_upload r s, elim r.1 [ ok u ↦ ok (ref, u) | err x ↦ err x ])

  -- The content that the source returns is written at once, and the upload closed; what fails before
  -- the close cancels the upload.
  unfoldable pub mount_content :
      Start → D → ℕ → MemRepoUpload D A → Result Bytes → System D A → System D A × Option D
  mount_content start dig ref u (err _) s = (with_repo (cancel s.repo u).0 s, none)
  mount_content start dig ref u (ok bs) s =
      let r = copy (whole start.later bs) s.repo u in
      let closed = close lib.writer start.later r.0.0 r.0.1 in
      elim r.1 [
        | some _ ↦ (put_back ref ((cancel r.0.0 r.0.1).0, r.0.1) s, none)
        | none ↦
            (put_back ref (closed.0, r.0.1) s, elim closed.1 [ some _ ↦ none | none ↦ some dig ])
      ]

  -- `blobUploadMount` once the target has a new upload: `src` is asked, which may be the target.
  unfoldable pub mount_from :
      (String → Option Error)
      → Start
      → String
      → String
      → D
      → ℕ × MemRepoUpload D A
      → Registry D A
      → Registry D A × Option D
  mount_from opened start src tgt dig (ref, u) reg =
      let cancelled = (cancel (reg tgt).repo u).0 in
      let got = blob_get lib.writer.digests dig (reg src).repo in
      let asked = set_system src (with_repo got.0 (reg src)) reg in
      let done = mount_content start dig ref u got.1 (asked tgt) in
      elim (opened src) [
        | some _ ↦ (set_system tgt (with_repo cancelled (reg tgt)) reg, none)
        | none ↦ (set_system tgt done.0 asked, done.1)
      ]

  -- `blobUploadMount`: the digest that it answers 201 for, `none` for its errors.
  unfoldable pub mount_upload :
      (String → Option Error)
      → Start
      → String
      → String
      → String
      → Registry D A
      → Registry D A × Option D
  mount_upload opened start src tgt dig_str reg = elim (lib.writer.digests.parse dig_str) [
    | err _ ↦ (reg, none)
    | ok dig ↦ elim (opened tgt) [
      | some _ ↦ (reg, none)
      | none ↦
          let r = create start (blob_with_digest lib.writer dig ∷ []) (reg tgt) in
          let reg' = set_system tgt r.0 reg in
          elim r.1 [
            | err blob_exists ↦ (reg', some dig)
            | err _ ↦ (reg', none)
            | ok made ↦ mount_from opened start src tgt dig made reg'
          ]
    ]
  ]

  -- The options of `BlobCreate` and the digest; an error is a digest or an algorithm that is not known.
  unfoldable pub post_algorithm : PostQuery → Result (List (BlobOpt D A))
  post_algorithm q =
      if q.digest_algorithm == ""
      then ok []
      else lib.algorithm_lookup q.digest_algorithm >>= (λ a. ok (blob_with_algorithm a ∷ []))

  unfoldable pub post_digest : PostQuery → Result (Option D)
  post_digest q =
      if q.digest == "" && q.mount == ""
      then ok none
      else lib.writer.digests.parse (if q.digest == "" then q.mount else q.digest)
        >>= (λ d. ok (some d))

  abbrev pub digest_option : Option D → List (BlobOpt D A)
  digest_option none = []
  digest_option (some d) = blob_with_digest lib.writer d ∷ []

  -- `d`, the zero digest where no digest was given
  abbrev pub given : Option D → D
  given none = lib.writer.digests.zero_digest
  given (some d) = d

module _ {D A : Type 0} ⦃e : Comparable D⦄ ⦃f : Comparable A⦄ (lib : BlobLib D A) where
  -- A new session, or the whole content at once.
  unfoldable pub begin_upload :
      Start → PostQuery → Body → Option D → List (BlobOpt D A) → System D A → System D A × Reply D
  begin_upload start q body d opts s =
      let r = create lib start opts s in
      elim r.1 [
        | err blob_exists ↦ (r.0, created (given lib d))
        | err _ ↦ (r.0, failed (bare_failure 500))
        | ok (ref, u) ↦
            if q.digest == ""
            then (r.0, started u.session_id (lib.encode_state 0))
            else store_body lib start.later body (given lib d) ref u r.0
      ]

  -- `blobUploadPost` after the mount.
  unfoldable pub post_push :
      (String → Option Error)
      → Start
      → PostQuery
      → Body
      → String
      → Registry D A
      → Registry D A × Reply D
  post_push opened start q body repo reg = elim (post_algorithm lib q) [
    | err _ ↦ (reg, failed digest_invalid)
    | ok algo ↦ elim (post_digest lib q) [
      | err _ ↦ (reg, failed digest_invalid)
      | ok d ↦ elim (opened repo) [
        | some x ↦ (reg, failed (repo_failure x))
        | none ↦
            let r = begin_upload start q body d (algo ++ digest_option lib d) (reg repo) in
            (set_system repo r.0 reg, r.1)
      ]
    ]
  ]

  -- `blobUploadPost`; the mount has a start of its own.
  unfoldable pub post_upload :
      (String → Option Error)
      → Config
      → Start
      → Start
      → PostQuery
      → Body
      → String
      → Registry D A
      → Registry D A × Reply D
  post_upload opened conf mounting start q body repo reg =
      if is_set conf.storage.read_only
      then (reg, failed denied)
      else if not (q.mount == "") && not (q.from == "")
      then (let r = mount_upload lib opened mounting q.from repo q.mount reg in
          elim r.1 [ some d ↦ (r.0, created d) | none ↦ post_push opened start q body repo r.0 ])
      else post_push opened start q body repo reg
