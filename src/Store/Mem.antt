-- ===== src/Store/Mem.antt =====
-- internal/store/mem.go: a repository in memory, over a directory that is only read. One operation
-- runs after the other, as the mutex of the repository has it, and takes the time of its calls of
-- `time.Now`; it returns the repository with its result. The configuration is one that
-- `SetDefaults` completed.
use Prim.Native.String.{◌++◌ as join}
use olareg.Shared.{
  ℕ, zero, suc, leb, String, List, [], ◌∷◌, ◌++◌, Option, none, some, Bool, true, false, Comparable,
  string_comparable, if◌then◌else◌,
}
use olareg.Shared.GoMap
use olareg.Shared.GoMap.{GoMap}
use olareg.Types.Error.{Error, Result, ok, err, other, not_found, read_only}
use olareg.Types.Digest.{DigestLib, Bytes}
use olareg.Types.Descriptor.{Descriptor}
use olareg.Types.Layout.{Clock, LayoutIndex, LayoutIndexOpt}
use olareg.Types.Layout.Operations.{add_desc, rm_desc}
use olareg.Cache
use olareg.Cache.{Cache}
use olareg.Config.{Config}
use olareg.Store.{BlobMeta}

pub record MemRepoBlob : Type 0 where
  pub bytes : Bytes
  pub meta : BlobMeta

-- The directory: what `os.Open` and `os.Stat` find at the path of a digest, with `not_found` where
-- `os.IsNotExist` holds, and the folders under blobs with the names of their entries.
pub record Backing (D : Type 0) : Type 0 where
  pub file : D → Result MemRepoBlob
  pub folders : List (String × List String)

-- A nil pointer among the blobs is `some none`; an upload in the cache is its address. `pruning` counts
-- the goroutines with `pruneCount` that `Set` of the cache has started and that have not run yet.
pub record MemRepo (D : Type 0) : Type 0 where
  pub time_mod : ℕ
  pub index : LayoutIndex D
  pub blobs : GoMap D (Option MemRepoBlob)
  pub uploads : Cache String ℕ
  pub pruning : ℕ
  pub path : Option (Backing D)
  pub conf : Config

abbrev pub is_set : Option Bool → Bool
is_set (some b) = b
is_set none = false

-- `errors.Is(err, fs.ErrNotExist)` of `os.Stat`
abbrev pub is_missing : Result MemRepoBlob → Bool
is_missing (err not_found) = true
is_missing _ = false

module _ {D : Type 0} where
  abbrev pub is_read_only : MemRepo D → Bool
  is_read_only mr = is_set mr.conf.storage.read_only

  abbrev pub with_blobs : GoMap D (Option MemRepoBlob) → MemRepo D → MemRepo D
  with_blobs bs mr = record mr { blobs = bs }

  abbrev pub with_uploads : Cache String ℕ → MemRepo D → MemRepo D
  with_uploads c mr = record mr { uploads = c }

  -- After `uploads.Set`.
  abbrev pub with_session : Cache String ℕ × Bool → MemRepo D → MemRepo D
  with_session r mr = record mr {
    uploads = r.0;
    pruning = if r.1 then suc mr.pruning else mr.pruning;
  }

  abbrev pub stamped : ℕ → MemRepo D → MemRepo D
  stamped now mr = record mr { time_mod = now }

module _ {D : Type 0} ⦃e : Comparable D⦄ where
  unfoldable pub index_insert :
      Clock → ℕ → Descriptor D → List (LayoutIndexOpt D) → MemRepo D → MemRepo D × Option Error
  index_insert clock now desc opts mr =
      if is_read_only mr
      then (mr, some read_only)
      else (record mr { time_mod = now; index = add_desc clock desc opts mr.index }, none)

  unfoldable pub index_remove : Clock → ℕ → Descriptor D → MemRepo D → MemRepo D × Option Error
  index_remove clock now desc mr =
      if is_read_only mr
      then (mr, some read_only)
      else (record mr { time_mod = now; index = rm_desc clock desc mr.index }, none)

  -- The part of `blobGet` and `blobMeta` that asks the directory.
  unfoldable pub load_file : D → MemRepo D → MemRepo D × Result MemRepoBlob
  load_file d mr = elim mr.path [
    | none ↦ (mr, err not_found)
    | some dir ↦ elim (dir.file d) [
      | ok b ↦ (mr, ok b)
      | err not_found ↦ (with_blobs (GoMap.put d none mr.blobs) mr, err not_found)
      | err x ↦ (mr, err x)
    ]
  ]

  -- What `blobGet` and `blobMeta` share: the blob of a digest.
  unfoldable pub load : DigestLib D → D → MemRepo D → MemRepo D × Result MemRepoBlob
  load lib d mr =
      let unknown = load_file d mr in
      if lib.is_zero d
      then (mr, err (other "invalid digest"))
      else (elim (GoMap.lookup d mr.blobs) [
        | some (some b) ↦ (mr, ok b)
        | some none ↦ (mr, err not_found)
        | none ↦ unknown
      ])

  unfoldable pub blob_get : DigestLib D → D → MemRepo D → MemRepo D × Result Bytes
  blob_get lib d mr = let r = load lib d mr in (r.0, elim r.1 [ ok b ↦ ok b.bytes | err x ↦ err x ])

  unfoldable pub blob_meta : DigestLib D → D → MemRepo D → MemRepo D × Result BlobMeta
  blob_meta lib d mr = let r = load lib d mr in (r.0, elim r.1 [ ok b ↦ ok b.meta | err x ↦ err x ])

  -- `blobDelete` on a repository that may be written and a digest that is not zero.
  unfoldable pub drop_blob : ℕ → D → MemRepo D → MemRepo D × Option Error
  drop_blob now d mr =
      let marked : MemRepo D × Option Error =
        (stamped now (with_blobs (GoMap.put d none mr.blobs) mr), none) in
      elim (GoMap.lookup d mr.blobs) [
        | some _ ↦ elim mr.path [
          | some _ ↦ marked
          | none ↦ (stamped now (with_blobs (GoMap.delete d mr.blobs) mr), none)
        ]
        | none ↦ elim mr.path [
          | none ↦ (mr, some not_found)
          | some dir ↦ if is_missing (dir.file d) then (mr, some not_found) else marked
        ]
      ]

  unfoldable pub blob_delete : DigestLib D → ℕ → D → MemRepo D → MemRepo D × Option Error
  blob_delete lib now d mr =
      if is_read_only mr
      then (mr, some read_only)
      else if lib.is_zero d
      then (mr, some (other "invalid digest"))
      else drop_blob now d mr

  -- `for d, v := range mr.blobs { if v != nil { … } }`
  unfoldable pub held : GoMap D (Option MemRepoBlob) → List D
  held [] = []
  held ((d, some b) ∷ bs) = d ∷ held bs
  held ((d, none) ∷ bs) = held bs

  -- The entries of one folder whose names are digests that the map does not have.
  unfoldable pub folder_digests :
      DigestLib D → GoMap D (Option MemRepoBlob) → String → List String → List D
  folder_digests lib bs algo [] = []
  folder_digests lib bs algo (encode ∷ rest) =
      let later = folder_digests lib bs algo rest in
      elim (lib.parse (join algo (join ":" encode))) [
        | err _ ↦ later
        | ok d ↦ elim (GoMap.lookup d bs) [ none ↦ d ∷ later | some _ ↦ later ]
      ]

  unfoldable pub listed :
      DigestLib D → GoMap D (Option MemRepoBlob) → List (String × List String) → List D
  listed lib bs [] = []
  listed lib bs ((algo, encodes) ∷ rest) = folder_digests lib bs algo encodes ++ listed lib bs rest

  unfoldable pub blob_list : DigestLib D → MemRepo D → List D
  blob_list lib mr =
      held mr.blobs ++ (elim mr.path [ none ↦ [] | some dir ↦ listed lib mr.blobs dir.folders ])

  unfoldable pub blob_session : ℕ → String → MemRepo D → MemRepo D × Result ℕ
  blob_session now id mr =
      let r = Cache.get now id mr.uploads in
      (with_uploads r.0 mr, elim r.1 [ ok ref ↦ ok ref | err _ ↦ err not_found ])

  -- `b, ok := mr.blobs[conf.expect]`, where a nil blob does not count
  unfoldable pub has_blob : D → MemRepo D → Bool
  has_blob d mr = elim (GoMap.lookup d mr.blobs) [ some (some _) ↦ true | _ ↦ false ]

-- What runs beside the operations: the timer of the sessions, and a goroutine with `pruneCount`, each
-- with the time and the keys in the order in which it meets or sorts them.
pub data Prune : Type 0 where
  by_age : ℕ → List String → Prune
  by_count : ℕ → List String → Prune

module _ {D : Type 0} where
  -- The timer fires once its moment has come.
  unfoldable pub fire_timer : ℕ → List String → MemRepo D → MemRepo D
  fire_timer now order mr = elim mr.uploads.timer [
    | none ↦ mr
    | some t ↦ if leb t now then with_uploads (Cache.prune_age now order mr.uploads) mr else mr
  ]

  unfoldable pub run_pruning : ℕ → List String → MemRepo D → MemRepo D
  run_pruning now sorted mr = elim mr.pruning [
    | zero ↦ mr
    | suc n ↦ record mr { uploads = Cache.prune_count now sorted mr.uploads; pruning = n }
  ]

  unfoldable pub prune : Prune → MemRepo D → MemRepo D
  prune (by_age now order) mr = fire_timer now order mr
  prune (by_count now sorted) mr = run_pruning now sorted mr
