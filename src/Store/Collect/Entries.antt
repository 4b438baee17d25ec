-- ===== src/Store/Collect/Entries.antt =====
-- What the garbage collection leaves of the index (internal/store/store.go).
use olareg.Shared.{
  false, ◌||◌, ℕ, zero, suc, List-cases, List, [], ◌∷◌, Bool, true, ◌&&◌, not, ◌≡◌, refl, ap, subst,
  Comparable, ◌==◌, ==_iff, arith, Bool-cases, inl, inr, if◌then◌else◌,
}
use olareg.Shared.Slices.{any}
use olareg.Types.Error.{ok, err, not_found}
use olareg.Types.Descriptor.{Descriptor, annotation_val}
use olareg.Types.Layout.{has_digest, Clock, LayoutIndex}
use olareg.Types.Layout.Operations.{get_digest, rm_desc}
use olareg.Types.Layout.Deletes.{get_digest-rm_desc, get_digest-rm_desc_ne}
use olareg.Types.Digest.{DigestLib, Bytes}
use olareg.Config.{ConfigGc}
use olareg.Store.Collect.{
  bare, member, Repo, Decoder, Choice, kept, with_subject, left, Marks, add_member, choose,
  mark_choice, mark_entries,
}
use olareg.Store.Collect.Walk.{push_referrer, follow, visit, walk}
use olareg.Store.Collect.Fuel.{member-add_member}
use olareg.Store.Collect.Sweep.{tidy, sweep, no_marks, marks, collect}

module _ {D : Type 0} ⦃e : Comparable D⦄ (clock : Clock) where
  get_digest-rm_bare :
      (d j : D) (index : LayoutIndex D)
      → get_digest j (rm_desc clock (bare d) index)
        ≡ (if d == j then err not_found else get_digest j index)
  unfolding annotation_val
  get_digest-rm_bare d j index = elim (Bool-cases (d == j)) [
    | inl q ↦
        subst
          (λ x.
            get_digest x (rm_desc clock (bare d) index)
            ≡ (if d == j then err not_found else get_digest j index))
          ((==_iff d j).0 q) (rw (q) (get_digest-rm_desc clock (bare d) index refl))
    | inr q ↦ rw (q) (
        get_digest-rm_desc_ne clock (bare d) index refl j
          (λ same. ground (arith, ==_iff d j, same)))
  ]

  -- After the last loop of the garbage collection, a digest that it has met and that is no blob of
  -- the repository is not found in the index, and every other digest is found as before.
  pub get_digest-tidy :
      (listed ds : List D) (j : D) (index : LayoutIndex D) (modified : Bool)
      → get_digest j (tidy clock listed ds (index, modified)).0
        ≡ (if member j ds && not (member j listed) then err not_found else get_digest j index)
  unfolding tidy any
  get_digest-tidy listed [] j index modified = ground arith
  get_digest-tidy listed (d ∷ ds) j index modified =
      let same_digest : (d == j) ≡ true → member d listed ≡ member j listed =
        λ q. ap (λ x. member x listed) ((==_iff d j).0 q) in
      let less = rm_desc clock (bare d) index in
      elim (Bool-cases (member d listed)) [
        | inl q ↦
            rw (q, tidy)
              (ground (arith, q, same_digest, get_digest-tidy listed ds j index modified))
        | inr q ↦
            rw (q, tidy)
              (ground (
                arith,
                q,
                same_digest,
                get_digest-tidy listed ds j less true,
                get_digest-rm_bare d j index,
              ))
      ]

module _ {R D : Type 0} ⦃e : Comparable D⦄ where
  in_index-mark_choice :
      (d : Descriptor D) (c : Choice D) (m : Marks R D) → (mark_choice d c m).in_index ≡ m.in_index
  unfolding mark_choice
  in_index-mark_choice d kept m = refl
  in_index-mark_choice d (with_subject dig) m = refl
  in_index-mark_choice d left m = refl

  in_index-push_referrer : (d : D) (m : Marks R D) → (push_referrer d m).in_index ≡ m.in_index
  unfolding push_referrer
  in_index-push_referrer d m = ground arith

  in_index-follow :
      (dec : Decoder D) (d : Descriptor D) (bs : Bytes) (m : Marks R D)
      → (follow dec d bs m).in_index ≡ m.in_index
  unfolding follow push_referrer
  in_index-follow dec d bs m = ground arith

module _ {R D : Type 0} ⦃e : Comparable D⦄ (repo : Repo R D) (lib : DigestLib D) (dec : Decoder D)
    (clock : Clock) (conf : ConfigGc) (now : ℕ) where
  member-visit :
      (d : Descriptor D) (j : D) (m : Marks R D)
      → member j m.in_index ≡ true
      → member j (visit repo dec d m).in_index ≡ true
  unfolding visit follow push_referrer
  member-visit d j m h = ground (arith, member-add_member d.digest j m.in_index)

  member-walk :
      (fuel : ℕ) (j : D) (m : Marks R D)
      → member j m.in_index ≡ true
      → member j (walk repo dec fuel m).in_index ≡ true
  unfolding walk
  member-walk zero j m h = h
  member-walk (suc fuel) j m h = elim (List-cases m.manifests) [
    | inl q ↦ rw (q, walk) h
    | inr (d, rest, q) ↦
        let m' : Marks R D = record m { manifests = rest } in
        rw (q, walk) (member-walk fuel j (visit repo dec d m') (member-visit d j m' h))
  ]

  member-mark_entries :
      (ds : List (Descriptor D)) (j : D) (m : Marks R D)
      → (any (has_digest j) ds || member j m.in_index) ≡ true
      → member j (mark_entries repo lib conf now ds m).in_index ≡ true
  unfolding mark_entries any
  member-mark_entries [] j m h = h
  member-mark_entries (d ∷ ds) j m h =
      let r = choose repo lib conf now d m.repo in
      let m' : Marks R D = record m { repo = r.0; in_index = add_member d.digest m.in_index } in
      let same = in_index-mark_choice d r.1 m' in
      member-mark_entries ds j (mark_choice d r.1 m')
        (rw (same) (ground (arith, h, member-add_member d.digest j m.in_index)))

  -- After the garbage collection, an entry of the index whose digest is no blob of the repository
  -- is not found.
  pub get_digest-collect :
      (fuel : ℕ) (index : LayoutIndex D) (r : R) (dl : List D) (i : LayoutIndex D × Bool) (j : D)
      → repo.list (walk repo dec fuel (marks repo lib dec clock conf now index r)).repo ≡ ok dl
      → (collect repo lib dec clock conf now fuel index r).1 ≡ ok i
      → any (has_digest j) index.index.manifests ≡ true
      → member j dl ≡ false
      → get_digest j i.0 ≡ err not_found
  unfolding collect
  get_digest-collect fuel index r dl i j q g h n =
      let m = walk repo dec fuel (marks repo lib dec clock conf now index r) in
      let met : member j m.in_index ≡ true =
        member-walk fuel j (marks repo lib dec clock conf now index r)
          (member-mark_entries index.index.manifests j (no_marks r) (ground arith)) in
      let swept = sweep repo lib clock conf now m.seen m.in_index dl (m.repo, (index, false)) in
      let done = get_digest-tidy clock dl m.in_index j swept.1.0 swept.1.1 in
      let same : tidy clock dl m.in_index swept.1 ≡ i = ground (arith, q, g) in
      subst (λ x. get_digest j x.0 ≡ err not_found) same (ground (arith, done, met, n))
