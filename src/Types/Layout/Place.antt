-- ===== src/Types/Layout/Place.antt =====
-- The last step of `AddDesc` (types/layout.go): where the new entry goes.
use olareg.Shared.{
  ℕ, ◌<◌, String, List, [], ◌∷◌, ◌++◌, some, Bool, true, false, ◌&&◌, not, ◌≡◌, ◌≢◌, refl,
  Comparable, ◌==◌, ==_iff, ==_self, string_comparable, arith, Option-cases, Bool-cases, ◌⊎◌, inl,
  inr,
}
use olareg.Shared.Slices.{get_elem?, find?, count_p, index_func, set}
use olareg.Shared.Counting.{
  index_func-found, index_func-none, find?-set, find?-append_one, find?-count, find?-some,
  count_p-set, count_p-append, count_p-single, find?-get_elem?, get_elem?-count, get_elem?-not,
}
use olareg.Types.Descriptor.{Descriptor}
use olareg.Types.Layout.{has_tag, annotations_empty, compatible, retag_at, place}
use olareg.Types.Layout.Lemmas.{annotations_empty-tag}
use olareg.Types.Layout.Steps.{stale}

module _ {D : Type 0} ⦃e : Comparable D⦄ (tag : String) (d : Descriptor D) where
  -- The step appends the entry, replaces a compatible one without annotations, or does nothing.
  pub data Placed (ms ms' : List (Descriptor D)) : Type 0 where
    appended : count_p (compatible tag d.digest) ms ≡ 0 → ms' ≡ ms ++ d ∷ [] → Placed ms ms'
    replaced :
        (i : ℕ) (cur : Descriptor D)
        → get_elem? ms i ≡ some cur
        → (cur.digest == d.digest) ≡ true
        → annotations_empty cur ≡ true
        → (tag == "") ≡ false
        → ms' ≡ set ms i d
        → Placed ms ms'
    kept :
        (i : ℕ) (cur : Descriptor D)
        → get_elem? ms i ≡ some cur
        → compatible tag d.digest cur ≡ true
        → (tag ≡ "") ⊎ (annotations_empty cur ≡ false)
        → ms' ≡ ms
        → Placed ms ms'

  pub place-Placed : (ms : List (Descriptor D)) → Placed ms (place tag d ms)
  unfolding place retag_at compatible
  place-Placed ms = elim (Option-cases (index_func (compatible tag d.digest) ms)) [
    | inl h ↦ appended (index_func-none (compatible tag d.digest) ms h) (rw (h, place) refl)
    | inr (i, h) ↦
        let (cur, at, ok, _) = index_func-found (compatible tag d.digest) ms h in
        elim (Bool-cases (not (tag == "") && annotations_empty cur)) [
          | inl t ↦ replaced i cur at (ground arith) (ground arith) (ground arith) (ground arith)
          | inr t ↦ kept i cur at (ground arith) (ground (arith, ==_iff tag "")) (ground arith)
        ]
  ]

  -- An entry that fails a test, and takes no place of one that passes, leaves the first that passes.
  pub place-find? :
      (p : Descriptor D → Bool)
      → ((c : Descriptor D) → annotations_empty c ≡ true → p c ≡ false)
      → p d ≡ false
      → (ms : List (Descriptor D)) → find? p (place tag d ms) ≡ find? p ms
  place-find? p tagged new ms = elim (place-Placed ms) [
    | appended _ h ↦ rw h (find?-append_one p ms d new)
    | replaced i cur at _ plain _ h ↦ rw h (find?-set p ms i d at (tagged cur plain) new)
    | kept _ _ _ _ _ h ↦ rw h
  ]

  place-stale :
      (ms : List (Descriptor D))
      → count_p (stale tag d.digest) ms ≡ 0
      → count_p (stale tag d.digest) (place tag d ms) ≡ 0
  place-stale ms none_stale = elim (place-Placed ms) [
    | appended _ h ↦ rw (h, count_p-append, count_p-single) (ground (arith, ==_self d.digest))
    | replaced i cur at _ plain _ h ↦
        rw h (ground (arith, ==_self d.digest, count_p-set (stale tag d.digest) ms i d at))
    | kept _ _ _ _ _ h ↦ rw h none_stale
  ]

  place-tagged :
      (ms : List (Descriptor D))
      → has_tag tag d ≡ true
      → tag ≢ ""
      → 0 < count_p (has_tag tag) (place tag d ms)
  unfolding compatible
  place-tagged ms new some_tag = elim (place-Placed ms) [
    | appended _ h ↦ rw (h, count_p-append, count_p-single) (ground arith)
    | replaced i cur at _ plain _ h ↦ rw h (
        ground (
          arith,
          annotations_empty-tag cur plain,
          ==_iff "" tag,
          count_p-set (has_tag tag) ms i d at,
        ))
    | kept i cur at ok why h ↦
        rw h (get_elem?-count (has_tag tag) ms i at (ground (arith, ==_iff tag "")))
  ]

  -- The tag resolves to an entry of the digest.
  pub place-found :
      (ms : List (Descriptor D))
      → has_tag tag d ≡ true
      → tag ≢ ""
      → count_p (stale tag d.digest) ms ≡ 0
      → (c : Descriptor D) × (find? (has_tag tag) (place tag d ms) ≡ some c) × (c.digest ≡ d.digest)
  place-found ms new some_tag none_stale =
      let (c, first) = find?-count (has_tag tag) (place tag d ms) (place-tagged ms new some_tag) in
      let (i, at) = find?-get_elem? (has_tag tag) (place tag d ms) first in
      let fresh =
        get_elem?-not (stale tag d.digest) (place tag d ms) i at (place-stale ms none_stale) in
      (
        c,
        first,
        ground (
          arith,
          fresh,
          find?-some (has_tag tag) (place tag d ms) first,
          ==_iff c.digest d.digest,
        ),
      )
