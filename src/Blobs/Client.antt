-- ===== src/Blobs/Client.antt =====
-- A client that starts an upload, sends parts with the states that it is answered, and ends it with
-- the digest of the whole (blob.go).
use olareg.Shared.{
  ℕ, ◌+◌, ◌≤◌, ◌<◌, ◌≢◌, String, List, [], ◌∷◌, ◌++◌, Option, none, some, false, ◌≡◌, Comparable,
  string_comparable,
}
use olareg.Shared.Slices.{length}
use olareg.Types.Error.{ok, err, not_found}
use olareg.Types.Digest.{Bytes}
use olareg.Config.{Config}
use olareg.Cache
use olareg.Store.Mem.{MemRepo, Prune, by_age, by_count, prune, is_set, is_read_only}
use olareg.Store.System.{System, with_repo}
use olareg.Blobs.{BlobLib, Body, Reply, started, progress}
use olareg.Blobs.Handlers.{patch_upload, put_upload}
use olareg.Blobs.Posts.{Registry, set_system, Start, PostQuery, post_upload}
use olareg.Blobs.Uploads.{joined}

abbrev pub plain : PostQuery
plain = record { mount = ""; from = ""; digest_algorithm = ""; digest = "" }

abbrev pub no_body : Body
no_body = record { chunks = []; error = none }

-- The parts of an upload, each with the sessions that are pruned before its request, in the order in
-- which that is done, the time of the request, and the body.
abbrev pub Parts : Type 0
Parts = List (List Prune × (ℕ × Body))

abbrev pub all_bytes : Parts → Bytes
all_bytes [] = []
all_bytes ((gap, (now, body)) ∷ parts) = joined body.chunks ++ all_bytes parts

-- No body ends with an error.
abbrev pub Complete : Parts → Type 0
Complete [] = Unit
Complete ((gap, (now, body)) ∷ parts) = (body.error ≡ none) × Complete parts

-- The time of the last bytes of a request.
abbrev pub last_time : ℕ → List (ℕ × Bytes) → ℕ
last_time t [] = t
last_time t ((now, p) ∷ ps) = last_time now ps

-- Where there is an age limit, sessions are pruned by their age only as long as one that was last used
-- at some time is not too old.
abbrev pub InTime : ℕ → ℕ → List Prune → Type 0
InTime age used [] = Unit
InTime age used (by_age now order ∷ ps) = (age ≢ 0 → now ≤ used + age) × InTime age used ps
InTime age used (by_count now sorted ∷ ps) = InTime age used ps

-- Each request comes before the session is too old, and so does the last one, after `gap`.
abbrev pub Timely : ℕ → ℕ → Parts → List Prune → Type 0
Timely age used [] gap = InTime age used gap
Timely age used ((before, (now, body)) ∷ parts) gap =
    InTime age used before × Timely age (last_time now body.chunks) parts gap

module _ {D : Type 0} where
  unfoldable pub prunings : List Prune → MemRepo D → MemRepo D
  prunings [] mr = mr
  prunings (p ∷ ps) mr = prunings ps (prune p mr)

module _ {D A : Type 0} where
  -- Time passes, in which sessions are pruned.
  abbrev pub pruned : List Prune → System D A → System D A
  pruned gap s = with_repo (prunings gap s.repo) s

module _ {D A : Type 0} ⦃e : Comparable D⦄ ⦃f : Comparable A⦄ (lib : BlobLib D A) where
  -- The parts are sent one after the other; the result is the last state.
  unfoldable pub send : String → String → Parts → System D A → Option (String × System D A)
  send id state [] s = some (state, s)
  send id state ((gap, (now, body)) ∷ parts) s =
      let r = patch_upload lib now id "" state body none (pruned gap s) in
      elim r.1 [ progress code next _ ↦ send id next parts r.0 | _ ↦ none ]

  -- The whole upload; `last` is the body of the PUT, and `gap` comes before it.
  unfoldable pub push_blob :
      Config
      → Start
      → Parts
      → List Prune
      → ℕ
      → ℕ
      → String
      → Body
      → String
      → Registry D A
      → Option (Registry D A × Reply D)
  push_blob conf start parts gap now later dig last repo reg =
      let r = post_upload lib (λ name. none) conf start start plain no_body repo reg in
      elim r.1 [
        | started id state ↦ elim (send id state parts (r.0 repo)) [
          | none ↦ none
          | some (next, s) ↦
              let p = put_upload lib now later id "" dig next last none (pruned gap s) in
              some (set_system repo p.0 r.0, p.1)
        ]
        | _ ↦ none
      ]

module _ {D A : Type 0} where
  -- A repository that takes an upload: it may be written, its sessions are removed without asking,
  -- the new identifier is not one of them, and one more is not too many.
  pub record Ready (conf : Config) (start : Start) (id : String) (s : System D A) : Type 0 where
    pub writable : is_set conf.storage.read_only ≡ false
    pub repo_writable : is_read_only s.repo ≡ false
    pub session : start.session ≡ ok id
    pub fresh : (Cache.get 0 id s.repo.uploads).1 ≡ err not_found
    pub free : s.repo.uploads.prune_fn ≡ none
    pub room :
        s.repo.uploads.max_count ≢ 0 → length s.repo.uploads.entries < s.repo.uploads.max_count
    pub idle : s.repo.pruning ≡ 0
