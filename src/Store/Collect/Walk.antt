-- ===== src/Store/Collect/Walk.antt =====
-- internal/store/store.go: the walk of `repoGarbageCollect` over the manifests that are kept.
use olareg.Shared.{ℕ, zero, suc, [], ◌∷◌, none, some, Comparable, string_comparable, if◌then◌else◌}
use olareg.Shared.GoMap
use olareg.Shared.GoMap.{GoMap}
use olareg.Types.Error.{ok, err}
use olareg.Types.Digest.{Bytes}
use olareg.Types.Descriptor.{Descriptor}
use olareg.Types.MediaType.{media_type_index, media_type_image}
use olareg.Store.Collect.{Repo, Decoder, Marks, push_all, member, add_member, add_members}

module _ {R D : Type 0} ⦃e : Comparable D⦄ where
  -- `if referrer, ok := subjects[d.Digest]; ok { … }`
  unfoldable pub push_referrer : D → Marks R D → Marks R D
  push_referrer d m = elim (GoMap.lookup d m.subjects) [
    | none ↦ m
    | some referrer ↦ record m { manifests = referrer ∷ m.manifests }
  ]

module _ {R D : Type 0} ⦃e : Comparable D⦄ (dec : Decoder D) where
  -- What a blob of the walk adds, by the media type of its descriptor.
  unfoldable pub follow : Descriptor D → Bytes → Marks R D → Marks R D
  follow d bs m =
      if media_type_index d.media_type
      then (elim (dec.decode_index bs) [
        | err _ ↦ m
        | ok man ↦
            push_referrer d.digest (record m { manifests = push_all man.manifests m.manifests })
      ])
      else if media_type_image d.media_type
      then (elim (dec.decode_manifest bs) [
        | err _ ↦ m
        | ok man ↦
            push_referrer d.digest
              (record m { seen = add_members (man.config ∷ man.layers) m.seen })
      ])
      else (elim (dec.close bs) [ some _ ↦ m | none ↦ push_referrer d.digest m ])

module _ {R D : Type 0} ⦃e : Comparable D⦄ (repo : Repo R D) (dec : Decoder D) where
  -- The body of the walk, at a descriptor that is taken from the slice.
  unfoldable pub visit : Descriptor D → Marks R D → Marks R D
  visit d m =
      let m' : Marks R D = record m { in_index = add_member d.digest m.in_index } in
      let r = repo.get d.digest m.repo in
      if member d.digest m.seen then m' else (elim r.1 [
        | err _ ↦ record m' { repo = r.0 }
        | ok bs ↦ follow dec d bs (record m' { repo = r.0; seen = add_member d.digest m.seen })
      ])

  -- `for len(manifests) > 0 { … }`, for at most `fuel` descriptors
  unfoldable pub walk : ℕ → Marks R D → Marks R D
  walk zero m = m
  walk (suc fuel) m = elim m.manifests [
    | [] ↦ m
    | d ∷ rest ↦ walk fuel (visit d (record m { manifests = rest }))
  ]
