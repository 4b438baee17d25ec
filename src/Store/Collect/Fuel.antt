-- ===== src/Store/Collect/Fuel.antt =====
-- The walk of the garbage collection ends: how much fuel it needs (internal/store/store.go).
use native.Mathlib.Nat.{mul-le-mul_left}
use olareg.Shared.{
  Option-cases, ℕ, zero, suc, ◌+◌, ◌*◌, ◌≤◌, List, [], ◌∷◌, true, false, ◌||◌, ◌≡◌, refl, sym, ◌∙◌,
  ap, Comparable, Bool-cases, inl, inr, ◌==◌, ==_iff, ==_self, arith, List-cases,
}
use olareg.Shared.Slices.{any, length}
use olareg.Shared.Members.{unseen, unseen_mono, unseen-lt}
use olareg.Types.Error.{ok, Result-cases}
use olareg.Types.Digest.{Bytes}
use olareg.Types.Descriptor.{Descriptor, Index}
use olareg.Types.MediaType.{media_type_index, media_type_image}
use olareg.Store.Collect.{Repo, Decoder, Marks, member, add_member, add_members, push_all}
use olareg.Store.Collect.Walk.{push_referrer, follow, visit, walk}
use olareg.Store.Collect.Kept.{peek, IsStore, peek-visit}

times-step : (k u v : ℕ) → v + 1 ≤ u → k * v + k ≤ k * u
times-step k u v h = omega (arith, mul-le-mul_left k h)

length-push_all {ℓ} : {A : Type ℓ} (xs s : List A) → length (push_all xs s) ≡ length xs + length s
unfolding push_all
length-push_all [] s = omega arith
length-push_all (x ∷ xs) s = omega (arith, length-push_all xs (x ∷ s))

module _ {D : Type 0} ⦃e : Comparable D⦄ where
  pub member-add_member :
      (d j : D) (seen : List D) → member j (add_member d seen) ≡ (d == j || member j seen)
  unfolding add_member any
  member-add_member d j seen = elim (Bool-cases (d == j)) [
    | inl q ↦ ground (arith, q, ap (λ x. member x seen) ((==_iff d j).0 q))
    | inr q ↦ ground (arith, q)
  ]

  pub unseen-add_member :
      (ds seen : List D) (d : D)
      → member d ds ≡ true
      → member d seen ≡ false
      → unseen ds (add_member d seen) + 1 ≤ unseen ds seen
  unseen-add_member ds seen d h g =
      unseen-lt ds seen (add_member d seen) d (λ j q. ground (arith, member-add_member d j seen)) h
        g (ground (arith, member-add_member d d seen, ==_self d))

  member-add_members :
      (xs : List (Descriptor D)) (j : D) (seen : List D)
      → member j seen ≡ true
      → member j (add_members xs seen) ≡ true
  unfolding add_members
  member-add_members [] j seen h = h
  member-add_members (x ∷ xs) j seen h =
      member-add_members xs j (add_member x.digest seen)
        (ground (arith, member-add_member x.digest j seen))

module _ {R D : Type 0} ⦃e : Comparable D⦄ {repo : Repo R D} (s : IsStore repo) (dec : Decoder D)
    (ds : List D) (k : ℕ) where
  -- The digests `ds` have all blobs, and no index among the blobs lists more than `k` manifests.
  pub record IsBounded (r : R) : Type 0 where
    pub covers : (d : D) (bs : Bytes) → peek repo d r ≡ ok bs → member d ds ≡ true
    pub children :
        (d : D) (bs : Bytes) (man : Index D)
        → peek repo d r ≡ ok bs
        → dec.decode_index bs ≡ ok man
        → length man.manifests ≤ k

  IsBounded-same :
      {r r' : R} → IsBounded r → ((j : D) → peek repo j r' ≡ peek repo j r) → IsBounded r'
  IsBounded-same b same = record {
    covers = λ j bs g. b.covers j bs (sym (same j) ∙ g);
    children = λ j bs man g. b.children j bs man (sym (same j) ∙ g);
  }

  -- The descriptors to visit, and the most that the blobs not seen yet may add.
  abbrev pub work : Marks R D → ℕ
  work m = length m.manifests + suc k * unseen ds m.seen

  length-push_referrer :
      (d : D) (m : Marks R D) → length (push_referrer d m).manifests ≤ suc (length m.manifests)
  unfolding push_referrer
  length-push_referrer d m = ground arith

  seen-push_referrer : (d : D) (m : Marks R D) → (push_referrer d m).seen ≡ m.seen
  unfolding push_referrer
  seen-push_referrer d m = ground arith

  length-follow :
      (d : Descriptor D) (bs : Bytes) (m : Marks R D)
      → ((man : Index D) → dec.decode_index bs ≡ ok man → length man.manifests ≤ k)
      → length (follow dec d bs m).manifests ≤ length m.manifests + suc k
  unfolding follow
  length-follow d bs m h = elim (Bool-cases (media_type_index d.media_type)) [
    | inl q ↦ elim (Result-cases (dec.decode_index bs)) [
      | inl (x, g) ↦ rw (q, g, follow) (omega arith)
      | inr (man, g) ↦
          let m' : Marks R D = record m { manifests = push_all man.manifests m.manifests } in
          let pushed = length-push_all man.manifests m.manifests in
          rw (q, g, follow) (omega (arith, length-push_referrer d.digest m', pushed, h man g))
    ]
    | inr q ↦ elim (Bool-cases (media_type_image d.media_type)) [
      | inl p ↦ elim (Result-cases (dec.decode_manifest bs)) [
        | inl (x, g) ↦ rw (q, p, g, follow) (omega arith)
        | inr (man, g) ↦
            let m' : Marks R D = record m { seen = add_members (man.config ∷ man.layers) m.seen } in
            rw (q, p, g, follow) (omega (arith, length-push_referrer d.digest m'))
      ]
      | inr p ↦ elim (Option-cases (dec.close bs)) [
        | inl g ↦ rw (q, p, g, follow) (omega (arith, length-push_referrer d.digest m))
        | inr (x, g) ↦ rw (q, p, g, follow) (omega arith)
      ]
    ]
  ]

  member-follow :
      (d : Descriptor D) (bs : Bytes) (m : Marks R D) (j : D)
      → member j m.seen ≡ true
      → member j (follow dec d bs m).seen ≡ true
  unfolding follow
  member-follow d bs m j h = elim (Bool-cases (media_type_index d.media_type)) [
    | inl q ↦ elim (Result-cases (dec.decode_index bs)) [
      | inl (x, g) ↦ rw (q, g, follow) h
      | inr (man, g) ↦ rw (q, g, follow, seen-push_referrer) h
    ]
    | inr q ↦ elim (Bool-cases (media_type_image d.media_type)) [
      | inl p ↦ elim (Result-cases (dec.decode_manifest bs)) [
        | inl (x, g) ↦ rw (q, p, g, follow) h
        | inr (man, g) ↦
            rw (q, p, g, follow, seen-push_referrer)
              (member-add_members (man.config ∷ man.layers) j m.seen h)
      ]
      | inr p ↦ elim (Option-cases (dec.close bs)) [
        | inl g ↦ rw (q, p, g, follow, seen-push_referrer) h
        | inr (x, g) ↦ rw (q, p, g, follow) h
      ]
    ]
  ]

  work-visit :
      (d : Descriptor D) (m : Marks R D) → IsBounded m.repo → work (visit repo dec d m) ≤ work m
  unfolding visit
  work-visit d m b = elim (Bool-cases (member d.digest m.seen)) [
    | inl q ↦ rw (q, visit) (omega arith)
    | inr q ↦ elim (Result-cases (peek repo d.digest m.repo)) [
      | inl (x, g) ↦ rw (q, g, visit) (omega arith)
      | inr (bs, g) ↦
          let m' : Marks R D = record m {
            repo = (repo.get d.digest m.repo).0;
            in_index = add_member d.digest m.in_index;
            seen = add_member d.digest m.seen;
          } in
          let fewer = unseen-add_member ds m.seen d.digest (b.covers d.digest bs g) q in
          let still = unseen_mono ds m'.seen (follow dec d bs m').seen (member-follow d bs m') in
          rw (q, g, visit)
            (omega (
              arith,
              length-follow d bs m' (λ man. b.children d.digest bs man g),
              times-step (suc k) (unseen ds m.seen) (unseen ds (follow dec d bs m').seen)
                  (omega (arith, fewer, still)),
            ))
    ]
  ]

  -- The walk leaves no manifest to visit, given as much fuel as the work that it starts with.
  pub manifests-walk :
      (fuel : ℕ) (m : Marks R D)
      → IsBounded m.repo
      → work m ≤ fuel
      → (walk repo dec fuel m).manifests ≡ []
  unfolding walk
  manifests-walk zero m b h = elim (List-cases m.manifests) [
    | inl q ↦ q
    | inr (d, rest, q) ↦ ground (arith, ap (λ xs. length xs) q)
  ]
  manifests-walk (suc fuel) m b h = elim (List-cases m.manifests) [
    | inl q ↦ rw (q, walk) q
    | inr (d, rest, q) ↦
        let m' : Marks R D = record m { manifests = rest } in
        let less = work-visit d m' (IsBounded-same b (λ j. refl)) in
        rw (q, walk)
          (manifests-walk fuel (visit repo dec d m')
            (IsBounded-same b (λ j. peek-visit s dec d j m'))
            (omega (arith, less, ap (λ xs. length xs) q)))
  ]
