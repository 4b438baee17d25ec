-- ===== src/Store/Ingest/Fuel.antt =====
-- The end of the loop of `indexIngest` that loads children (internal/store/store.go).
use olareg.Shared.{
  ℕ, zero, suc, ◌+◌, ◌≤◌, List, [], ◌∷◌, ◌++◌, some, Bool, true, ◌≡◌, refl, sym, ◌∙◌, Comparable,
  arith, if◌then◌else◌, Bool-cases, inl, inr,
}
use olareg.Shared.Members.{unseen}
use olareg.Shared.Slices.{length}
use olareg.Types.Error.{ok, Result-cases}
use olareg.Types.Digest.{Bytes}
use olareg.Types.Descriptor.{Descriptor, Index}
use olareg.Types.MediaType.{media_type_index}
use olareg.Types.Layout.{LayoutIndex, add_children}
use olareg.Store.Collect.{member, add_member}
use olareg.Store.Collect.Fuel.{unseen-add_member}
use olareg.Store.Collect.Kept.{peek, IsStore}
use olareg.Store.Ingest.Index.{IngestLib, get_index, scan_children}
use olareg.Store.Ingest.Entries.{load_children}

length-snoc : {A : Type 0} (xs : List A) (x : A) → length (xs ++ x ∷ []) ≡ length xs + 1
length-snoc [] x = ground arith
length-snoc (y ∷ xs) x = ground (arith, length-snoc xs x)

module _ {D : Type 0} ⦃e : Comparable D⦄ where
  -- The digests of some entries are among those given.
  abbrev pub AreIn : List D → List (Descriptor D) → Type 0
  AreIn ds [] = Unit
  AreIn ds (c ∷ cs) = (member c.digest ds ≡ true) × AreIn ds cs

  load-queue :
      (ds : List D) (cs : List (Descriptor D)) (li : LayoutIndex D) (seen : List D)
      (queue : List (Descriptor D))
      → AreIn ds cs
      → length (load_children cs li seen queue).1.1 + unseen ds (load_children cs li seen queue).1.0
        ≤ length queue + unseen ds seen
  unfolding load_children
  load-queue ds [] li seen queue h = ground arith
  load-queue ds (c ∷ cs) li seen queue h = elim (Bool-cases (member c.digest seen)) [
    | inl q ↦ ground (arith, q, load-queue ds cs li seen queue (h.1))
    | inr q ↦
        let seen' = add_member c.digest seen in
        let queue' = if media_type_index c.media_type then queue ++ c ∷ [] else queue in
        ground (
          arith,
          q,
          load-queue ds cs (add_children li (c ∷ [])) seen' queue' (h.1),
          unseen-add_member ds seen c.digest (h.0) q,
          length-snoc queue c,
        )
  ]

module _ {R D : Type 0} ⦃e : Comparable D⦄ (lib : IngestLib R D) (s : IsStore lib.repo) where
  -- The digests that an index may list, of all indexes that can be read.
  pub record Covers (ds : List D) (r : R) : Type 0 where
    pub lists :
        (d : D) (bs : Bytes) (i : Index D) (b : Bool)
        → peek lib.repo d r ≡ ok bs
        → lib.decode bs ≡ ok (i, b)
        → AreIn ds i.manifests

  -- The loop over the children ends within as many rounds as there are indexes to scan at its start and
  -- digests that were not seen, among those that the indexes of the store list.
  pub scan_children-enough :
      (ds : List D) (n : ℕ) (queue : List (Descriptor D)) (seen : List D) (r : R)
      (li : LayoutIndex D)
      → Covers ds r
      → length queue + unseen ds seen ≤ n
      → (r' : R) × ((li' : LayoutIndex D) × (scan_children lib n queue seen r li ≡ some (r', li')))
  unfolding scan_children get_index
  scan_children-enough ds n [] seen r li c h = (r, (li, refl))
  scan_children-enough ds zero (d ∷ queue) seen r li c h = ground arith
  scan_children-enough ds (suc n) (d ∷ queue) seen r li c h =
      let got = lib.repo.get d.digest r in
      let c' : Covers ds got.0 = record {
        lists = λ j bs i b k q. c.lists j bs i b (sym (s.get_same d.digest j r) ∙ k) q;
      } in
      elim (Result-cases got.1) [
        | inl (x, q) ↦
            rw (q, scan_children, get_index)
              (scan_children-enough ds n queue seen got.0 li c' (ground arith))
        | inr (bs, q) ↦ elim (Result-cases (lib.decode bs)) [
          | inl (x, g) ↦
              rw (q, g, scan_children, get_index)
                (scan_children-enough ds n queue seen got.0 li c' (ground arith))
          | inr ((i, b), g) ↦
              let l = load_children i.manifests li seen queue in
              let more = load-queue ds i.manifests li seen queue (c.lists d.digest bs i b q g) in
              rw (q, g, scan_children, get_index)
                (scan_children-enough ds n l.1.1 l.1.0 got.0 l.0 c' (ground (arith, more)))
        ]
      ]
