-- ===== src/Store/Dedup.antt =====
-- What `referrerListDedup` keeps (internal/store/store.go).
use olareg.Shared.{
  ℕ, zero, suc, ◌+◌, ◌≤◌, List, [], ◌∷◌, ◌++◌, Bool, true, false, ◌&&◌, not, ◌≡◌, refl, ap, sym,
  ◌∙◌, Comparable, ◌==◌, ==_iff, arith, if◌then◌else◌, Bool-cases, List-cases, inl, inr,
}
use olareg.Shared.Slices.{length, any, count_p}
use olareg.Types.Descriptor.{Descriptor}
use olareg.Types.Layout.{has_digest}
use olareg.Store.Collect.{member, add_member}
use olareg.Store.Collect.Fuel.{member-add_member}
use olareg.Store.Ingest.{last_first, dedup_loop, referrer_list_dedup}

module _ {D : Type 0} where
  length-last_first : (xs : List (Descriptor D)) → length (last_first xs) ≡ length xs
  unfolding last_first
  length-last_first [] = refl
  length-last_first (x ∷ xs) = elim (List-cases (last_first xs)) [
    | inl q ↦ ground (arith, length-last_first xs)
    | inr (l, ls, q) ↦ ground (arith, length-last_first xs)
  ]

  any-last_first :
      (p : Descriptor D → Bool) (xs : List (Descriptor D)) → any p (last_first xs) ≡ any p xs
  unfolding last_first any
  any-last_first p [] = refl
  any-last_first p (x ∷ xs) = elim (List-cases (last_first xs)) [
    | inl q ↦ ground (arith, any-last_first p xs)
    | inr (l, ls, q) ↦ ground (arith, any-last_first p xs)
  ]

  count_p-append :
      (p : Descriptor D → Bool) (xs ys : List (Descriptor D))
      → count_p p (xs ++ ys) ≡ count_p p xs + count_p p ys
  unfolding count_p
  count_p-append p [] ys = ground arith
  count_p-append p (x ∷ xs) ys = ground (arith, count_p-append p xs ys)

abbrev once : Bool → ℕ
once b = if b then 1 else 0

module _ {D : Type 0} ⦃e : Comparable D⦄ where
  dedup_loop-count :
      (j : D) (n : ℕ) (seen : List D) (kept rest : List (Descriptor D))
      → length rest ≤ n
      → count_p (has_digest j) (dedup_loop n seen kept rest)
        ≡ count_p (has_digest j) kept + once (not (member j seen) && any (has_digest j) rest)
  unfolding dedup_loop any count_p
  dedup_loop-count j zero seen kept [] h = ground (arith, count_p-append (has_digest j) kept [])
  dedup_loop-count j zero seen kept (x ∷ xs) h = ground arith
  dedup_loop-count j (suc n) seen kept [] h = ground arith
  dedup_loop-count j (suc n) seen kept (x ∷ xs) h = elim (Bool-cases (member x.digest seen)) [
    | inl q ↦
        let more =
          dedup_loop-count j n seen kept (last_first xs) (ground (arith, length-last_first xs)) in
        elim (Bool-cases (x.digest == j)) [
          | inl k ↦
              let m : member j seen ≡ true =
                ap (λ d. member d seen) (sym ((==_iff x.digest j).0 k)) ∙ q in
              ground (arith, q, more, m, any-last_first (has_digest j) xs)
          | inr k ↦ ground (arith, q, more, any-last_first (has_digest j) xs)
        ]
    | inr q ↦
        let more =
          dedup_loop-count j n (add_member x.digest seen) (kept ++ x ∷ []) xs (ground arith) in
        let counted = count_p-append (has_digest j) kept (x ∷ []) in
        let m = member-add_member x.digest j seen in
        elim (Bool-cases (x.digest == j)) [
          | inl k ↦
              let l : member j seen ≡ false =
                ap (λ d. member d seen) (sym ((==_iff x.digest j).0 k)) ∙ q in
              ground (arith, q, more, counted, m, l)
          | inr k ↦ ground (arith, q, more, counted, m)
        ]
  ]

  -- `referrerListDedup` keeps exactly one entry of each digest of the list, and no other digest.
  pub referrer_list_dedup-count :
      (j : D) (rl : List (Descriptor D))
      → count_p (has_digest j) (referrer_list_dedup rl) ≡ (if any (has_digest j) rl then 1 else 0)
  unfolding referrer_list_dedup any count_p
  referrer_list_dedup-count j rl =
      ground (arith, dedup_loop-count j (length rl) [] [] rl (ground arith))
