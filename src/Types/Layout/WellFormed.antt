-- ===== src/Types/Layout/WellFormed.antt =====
-- The invariant of the index: a tag names one entry, and where an entry has no annotations, no other
-- entry without annotations and no entry with a tag has its digest. Entries of that digest with other
-- annotations, such as a list of referrers, may stand beside it.
use olareg.Shared.{
  ℕ, ◌+◌, ◌≤◌, ◌<◌, String, List, some, Bool, true, false, ◌&&◌, not, ◌≡◌, ◌≢◌, Comparable, ◌==◌,
  ==_iff, string_comparable, arith, Bool-cases, inl, inr, to_ℕ,
}
use olareg.Shared.Slices.{get_elem?, any, delete_at, set, count_p}
use olareg.Shared.Counting.{not-any-count, count_p-delete_at, count_p-set, count_p_mono, count_p_or}
use olareg.Types.Descriptor.{Descriptor, annotation_val, annot_ref_name}
use olareg.Types.Layout.{has_tag, drop_tag, annotations_empty}
use olareg.Types.Layout.Lemmas.{annotations_empty-tag, drop_tag-tag, drop_tag-digest}
use olareg.Types.Layout.Untag.{Untagged, Moved}

pub to_ℕ-le : (b : Bool) → to_ℕ b ≤ 1
to_ℕ-le true = omega arith
to_ℕ-le false = omega arith

module _ {D : Type 0} ⦃e : Comparable D⦄ where
  abbrev pub bare : D → Descriptor D → Bool
  bare q c = c.digest == q && annotations_empty c

  abbrev pub named : D → Descriptor D → Bool
  named q c = c.digest == q && not (has_tag "" c)

  pub record WellFormed (ms : List (Descriptor D)) : Type 0 where
    pub unique : (t : String) → t ≢ "" → count_p (has_tag t) ms ≤ 1
    pub lone : (q : D) → 0 < count_p (bare q) ms → count_p (bare q) ms + count_p (named q) ms ≤ 1

  -- An entry less keeps the invariant.
  pub WellFormed-delete_at :
      (ms : List (Descriptor D)) (i : ℕ) {x : Descriptor D}
      → get_elem? ms i ≡ some x
      → WellFormed ms
      → WellFormed (delete_at ms i)
  WellFormed-delete_at ms i at v = record {
    unique = λ t h. omega (arith, v.unique t h, count_p-delete_at (has_tag t) ms i at);
    lone = λ q h. omega (
      arith,
      v.lone q (omega (arith, count_p-delete_at (bare q) ms i at)),
      count_p-delete_at (bare q) ms i at,
      count_p-delete_at (named q) ms i at,
    );
  }

  -- What is left of a digest whose only entry loses its tag.
  drop_tag_lone :
      (tag : String) (ms : List (Descriptor D)) (i : ℕ) (cur : Descriptor D)
      → get_elem? ms i ≡ some cur
      → tag ≢ ""
      → has_tag tag cur ≡ true
      → any (λ c. c.digest == cur.digest && not (has_tag tag c)) ms ≡ false
      → WellFormed ms
      → (q : D) → 0 < count_p (bare q) (set ms i (drop_tag cur))
      → count_p (bare q) (set ms i (drop_tag cur)) + count_p (named q) (set ms i (drop_tag cur)) ≤ 1
  drop_tag_lone tag ms i cur at some_tag tagged alone v q h =
      let other = λ (c : Descriptor D). c.digest == cur.digest && not (has_tag tag c) in
      let b = count_p-set (bare q) ms i (drop_tag cur) at in
      let n = count_p-set (named q) ms i (drop_tag cur) at in
      elim (Bool-cases (cur.digest == q)) [
        | inr t ↦ ground (arith, v.lone q, b, n, drop_tag-digest cur)
        | inl t ↦
            let none_bare : count_p (bare q) ms ≤ count_p other ms =
              count_p_mono (bare q) other ms (λ c p. ground (
                arith,
                annotations_empty-tag c,
                ==_iff "" tag,
                ==_iff c.digest q,
                ==_iff cur.digest q,
                ==_iff c.digest cur.digest,
              )) in
            let one_named : count_p (named q) ms ≤ count_p other ms + count_p (has_tag tag) ms =
              count_p_or (named q) other (has_tag tag) ms (λ c p.
                ground
                  (arith, ==_iff c.digest q, ==_iff cur.digest q, ==_iff c.digest cur.digest)) in
            let alone' : count_p other ms ≡ 0 = not-any-count other ms alone in
            let tag_free : named q (drop_tag cur) ≡ false =
              ground (
                arith,
                drop_tag-tag cur,
                ==_iff (annotation_val (drop_tag cur) annot_ref_name) "",
              ) in
            let was_named : named q cur ≡ true = ground (
              arith,
              ==_iff (annotation_val cur annot_ref_name) tag,
              ==_iff (annotation_val cur annot_ref_name) "",
            ) in
            let was_bare : bare q cur ≡ false =
              ground (arith, annotations_empty-tag cur, ==_iff "" tag) in
            omega (
              arith,
              rw was_bare at b,
              rw (tag_free, was_named) at n,
              v.unique tag some_tag,
              to_ℕ-le (bare q (drop_tag cur)),
            )
      ]

  -- An entry with a tag loses it, and no other entry of its digest has another tag or none.
  pub WellFormed-drop_tag :
      (tag : String) (ms : List (Descriptor D)) (i : ℕ) (cur : Descriptor D)
      → get_elem? ms i ≡ some cur
      → tag ≢ ""
      → has_tag tag cur ≡ true
      → any (λ c. c.digest == cur.digest && not (has_tag tag c)) ms ≡ false
      → WellFormed ms
      → WellFormed (set ms i (drop_tag cur))
  WellFormed-drop_tag tag ms i cur at some_tag tagged alone v = record {
    unique = λ t h. ground (
      arith,
      v.unique t h,
      count_p-set (has_tag t) ms i (drop_tag cur) at,
      drop_tag-tag cur,
      ==_iff "" t,
    );
    lone = λ q h. drop_tag_lone tag ms i cur at some_tag tagged alone v q h;
  }

  pub Moved-WellFormed :
      (child : Descriptor D) (ms cs ms' cs' : List (Descriptor D))
      → Moved child ms cs ms' cs'
      → WellFormed ms
      → WellFormed ms'
  Moved-WellFormed child ms cs ms' cs' (Moved.kept a b) v = rw a v
  Moved-WellFormed child ms cs ms' cs' (Moved.moved i cur at _ _ a b) v =
      rw a (WellFormed-delete_at ms i at v)

  pub Untagged-WellFormed :
      (tag : String) (dig : D) (ms ms' : List (Descriptor D))
      → (tag == "") ≡ false
      → Untagged tag dig ms ms'
      → WellFormed ms
      → WellFormed ms'
  Untagged-WellFormed tag dig ms ms' t (Untagged.kept a) v = rw a v
  Untagged-WellFormed tag dig ms ms' t (Untagged.deleted i cur at _ _ _ a) v =
      rw a (WellFormed-delete_at ms i at v)
  Untagged-WellFormed tag dig ms ms' t (Untagged.dropped i cur at _ tagged o a) v =
      rw a (WellFormed-drop_tag tag ms i cur at (λ h. cc (t, (==_iff tag "").1 h)) tagged o v)
