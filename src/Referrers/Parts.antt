-- ===== src/Referrers/Parts.antt =====
-- What a list of referrers is split into: parts whose pages are within the limit (referrer.go).
use olareg.Shared.{
  ◌≤◌, List, [], ◌∷◌, ◌++◌, Bool, false, ◌≡◌, ◌≢◌, refl, sym, ap, ◌∙◌, if◌then◌else◌,
}
use olareg.Shared.Int.{ℤ, exceeds}
use olareg.Shared.Slices.{length}
use olareg.Types.Error.{ok, err}
use olareg.Types.Digest.{Bytes}
use olareg.Types.Descriptor.{Descriptor, Index}
use olareg.Types.Json.{Json}
use olareg.Referrers.{with_entries}

module _ {D : Type 0} (json : Json D) (limit : ℤ) (i : Index D) where
  -- A page can be written, is not empty, and is no shorter than one of its last entry alone.
  pub record Grows : Type 0 where
    pub total :
        (cs : List (Descriptor D)) → (bs : Bytes) × (json.encode_index (with_entries i cs) ≡ ok bs)
    pub some_byte :
        (cs : List (Descriptor D)) (bs : Bytes)
        → json.encode_index (with_entries i cs) ≡ ok bs
        → bs ≢ []
    pub longer :
        (cs : List (Descriptor D)) (d : Descriptor D) (one bs : Bytes)
        → json.encode_index (with_entries i (d ∷ [])) ≡ ok one
        → json.encode_index (with_entries i (cs ++ d ∷ [])) ≡ ok bs
        → length one ≤ length bs

  -- An entry alone on a page does not fit.
  unfoldable pub too_large : Descriptor D → Bool
  too_large d = elim (json.encode_index (with_entries i (d ∷ []))) [
    | err x ↦ false
    | ok one ↦ exceeds (length one) limit
  ]

  abbrev pub fitting : List (Descriptor D) → List (Descriptor D)
  fitting [] = []
  fitting (d ∷ ds) = let rest = fitting ds in if too_large d then rest else d ∷ rest

  abbrev pub oversized : List (Descriptor D) → List (Descriptor D)
  oversized [] = []
  oversized (d ∷ ds) = let rest = oversized ds in if too_large d then d ∷ rest else rest

  abbrev pub joined : List (List (Descriptor D)) → List (Descriptor D)
  joined [] = []
  joined (c ∷ cs) = c ++ joined cs

  -- The pages are those of the parts, in order, and each is within the limit.
  abbrev pub ArePages : List (List (Descriptor D)) → List Bytes → Type 0
  ArePages [] [] = Unit
  ArePages [] (p ∷ ps) = ⊥
  ArePages (c ∷ cs) [] = ⊥
  ArePages (c ∷ cs) (p ∷ ps) =
      (json.encode_index (with_entries i c) ≡ ok p)
      × ((exceeds (length p) limit ≡ false) × ArePages cs ps)

  -- The entries of the page that is being filled are those of its text.
  abbrev pub IsCurrent : List (Descriptor D) → Bytes → Type 0
  IsCurrent [] last = last ≡ []
  IsCurrent (c ∷ cs) last =
      (json.encode_index (with_entries i (c ∷ cs)) ≡ ok last)
      × (exceeds (length last) limit ≡ false)

  -- A split of some entries, the first of which are `cur`.
  pub record IsSplit (cur ds : List (Descriptor D)) (pages : List Bytes)
      (errs : List (Descriptor D)) : Type 0 where
    pub parts : List (List (Descriptor D))
    pub are_pages : ArePages parts pages
    pub entries : joined parts ≡ cur ++ fitting ds
    pub errors : errs ≡ oversized ds

  pub append_nil : (xs : List (Descriptor D)) → xs ++ [] ≡ xs
  append_nil [] = refl
  append_nil (x ∷ xs) = ap (λ ys. x ∷ ys) (append_nil xs)

  pub append-append : (xs ys zs : List (Descriptor D)) → (xs ++ ys) ++ zs ≡ xs ++ (ys ++ zs)
  append-append [] ys zs = refl
  append-append (x ∷ xs) ys zs = ap (λ ws. x ∷ ws) (append-append xs ys zs)

  pub joined-append :
      (cs bs : List (List (Descriptor D))) → joined (cs ++ bs) ≡ joined cs ++ joined bs
  joined-append [] bs = refl
  joined-append (a ∷ cs) bs =
      ap (λ r. a ++ r) (joined-append cs bs) ∙ sym (append-append a (joined cs) (joined bs))

  pub ArePages-append :
      (cs bs : List (List (Descriptor D))) (ps qs : List Bytes)
      → ArePages cs ps
      → ArePages bs qs
      → ArePages (cs ++ bs) (ps ++ qs)
  ArePages-append [] bs [] qs h k = k
  ArePages-append [] bs (p ∷ ps) qs h k = absurd h
  ArePages-append (a ∷ cs) bs [] qs h k = absurd h
  ArePages-append (a ∷ cs) bs (p ∷ ps) qs h k = (h.0, (h.1.0, ArePages-append cs bs ps qs h.1.1 k))
