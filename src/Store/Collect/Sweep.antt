-- ===== src/Store/Collect/Sweep.antt =====
-- internal/store/store.go: what `repoGarbageCollect` removes after its walk, and the whole of it.
use olareg.Shared.{
  ℕ, List, [], ◌∷◌, Bool, true, false, not, ◌&&◌, Comparable, string_comparable, if◌then◌else◌,
}
use olareg.Types.Error.{Result, ok, err}
use olareg.Types.Digest.{DigestLib}
use olareg.Types.Layout.{Clock, LayoutIndex}
use olareg.Types.Layout.Operations.{get_desc, rm_desc}
use olareg.Config.{ConfigGc}
use olareg.Store.Collect.{Repo, Decoder, Marks, is_ok, recent_meta, bare, member, mark_entries}
use olareg.Store.Collect.Walk.{walk}

module _ {D : Type 0} ⦃e : Comparable D⦄ (clock : Clock) where
  -- The index and whether it was changed.
  unfoldable pub prune_index : DigestLib D → D → LayoutIndex D × Bool → LayoutIndex D × Bool
  prune_index lib d (index, modified) =
      if is_ok (get_desc lib (lib.to_string d) index)
      then (rm_desc clock (bare d) index, true)
      else (index, modified)

  -- The loop over `inIndex`: entries without a blob go.
  unfoldable pub tidy : List D → List D → LayoutIndex D × Bool → LayoutIndex D × Bool
  tidy listed [] i = i
  tidy listed (d ∷ ds) (index, modified) =
      tidy listed ds
        (if member d listed then (index, modified) else (rm_desc clock (bare d) index, true))

module _ {R D : Type 0} ⦃e : Comparable D⦄ (repo : Repo R D) (lib : DigestLib D) (clock : Clock)
    (conf : ConfigGc) (now : ℕ) where
  -- The loop over the blobs, given what was seen and what is in the index.
  unfoldable pub sweep_blob :
      List D → List D → D → R × (LayoutIndex D × Bool) → R × (LayoutIndex D × Bool)
  sweep_blob seen in_index d (r, i) =
      let r' = repo.meta d r in
      if member d seen
      then (r, i)
      else if recent_meta conf now r'.1 && not (member d in_index)
      then (r'.0, i)
      else ((repo.remove now d r'.0).0, prune_index clock lib d i)

  unfoldable pub sweep :
      List D → List D → List D → R × (LayoutIndex D × Bool) → R × (LayoutIndex D × Bool)
  sweep seen in_index [] s = s
  sweep seen in_index (d ∷ ds) s = sweep seen in_index ds (sweep_blob seen in_index d s)

abbrev pub no_marks : {R D : Type 0} → R → Marks R D
no_marks r = record { repo = r; manifests = []; subjects = []; in_index = []; seen = [] }

module _ {R D : Type 0} ⦃e : Comparable D⦄ (repo : Repo R D) (lib : DigestLib D) (dec : Decoder D)
    (clock : Clock) (conf : ConfigGc) (now : ℕ) where
  abbrev pub marks : LayoutIndex D → R → Marks R D
  marks index r = mark_entries repo lib conf now index.index.manifests (no_marks r)

  -- `repoGarbageCollect`, with fuel for the walk
  unfoldable pub collect : ℕ → LayoutIndex D → R → R × Result (LayoutIndex D × Bool)
  collect fuel index r =
      let m = walk repo dec fuel (marks index r) in
      elim (repo.list m.repo) [
        | err x ↦ (m.repo, err x)
        | ok dl ↦
            let (r', i) =
              sweep repo lib clock conf now m.seen m.in_index dl (m.repo, (index, false)) in
            (r', ok (tidy clock dl m.in_index i))
      ]
