-- ===== src/Types/Layout/Untag.antt =====
-- One round of the loop of `AddDesc` that untags, and of the one that moves children
-- (types/layout.go), as relations between the entries before and after.
use olareg.Shared.{
  ℕ, zero, suc, String, List, [], ◌∷◌, ◌++◌, some, true, false, ◌&&◌, not, ◌≡◌, refl, Comparable,
  ◌==◌, string_comparable, arith, Option-cases, Bool-cases, inl, inr,
}
use olareg.Shared.Slices.{length, get_elem?, any, index_func, delete_at, set}
use olareg.Shared.Counting.{index_func-found}
use olareg.Types.Descriptor.{Descriptor}
use olareg.Types.Layout.{
  has_tag, drop_tag, annotations_empty, move_child, move_children, untag_entry, untag_at,
  untag_loop, untag,
}

module _ {D : Type 0} ⦃e : Comparable D⦄ (tag : String) (dig : D) where
  pub data Untagged (ms ms' : List (Descriptor D)) : Type 0 where
    kept : ms' ≡ ms → Untagged ms ms'
    deleted :
        (i : ℕ) (cur : Descriptor D)
        → get_elem? ms i ≡ some cur
        → (cur.digest == dig) ≡ false
        → has_tag tag cur ≡ true
        → any (λ c. c.digest == cur.digest && not (has_tag tag c)) ms ≡ true
        → ms' ≡ delete_at ms i
        → Untagged ms ms'
    dropped :
        (i : ℕ) (cur : Descriptor D)
        → get_elem? ms i ≡ some cur
        → (cur.digest == dig) ≡ false
        → has_tag tag cur ≡ true
        → any (λ c. c.digest == cur.digest && not (has_tag tag c)) ms ≡ false
        → ms' ≡ set ms i (drop_tag cur)
        → Untagged ms ms'

  untag_entry-Untagged :
      (ms : List (Descriptor D)) (i : ℕ) (cur : Descriptor D)
      → get_elem? ms i ≡ some cur
      → Untagged ms (untag_entry tag dig ms i cur)
  unfolding untag_entry
  untag_entry-Untagged ms i cur at =
      elim (Bool-cases (not (cur.digest == dig) && has_tag tag cur)) [
        | inl t ↦ elim (Bool-cases (any (λ c. c.digest == cur.digest && not (has_tag tag c)) ms)) [
          | inl o ↦ deleted i cur at (ground arith) (ground arith) o (ground arith)
          | inr o ↦ dropped i cur at (ground arith) (ground arith) o (ground arith)
        ]
        | inr t ↦ kept (ground arith)
      ]

  untag_at-Untagged : (ms : List (Descriptor D)) (i : ℕ) → Untagged ms (untag_at tag dig ms i)
  unfolding untag_at
  untag_at-Untagged ms i = elim (Option-cases (get_elem? ms i)) [
    | inl h ↦ kept (rw (h, untag_at) refl)
    | inr (cur, h) ↦ rw (h, untag_at) (untag_entry-Untagged ms i cur h)
  ]

  -- What each round keeps, the loop keeps.
  module _ (P : List (Descriptor D) → Type 0)
      (keeps : (ms ms' : List (Descriptor D))
        → (tag == "") ≡ false
        → Untagged ms ms'
        → P ms
        → P ms') where
    untag_loop_induction :
        (n : ℕ) (ms : List (Descriptor D))
        → (tag == "") ≡ false
        → P ms
        → P (untag_loop tag dig n ms)
    unfolding untag_loop
    untag_loop_induction zero ms t h = h
    untag_loop_induction (suc i) ms t h =
        untag_loop_induction i (untag_at tag dig ms i) t
          (keeps ms (untag_at tag dig ms i) t (untag_at-Untagged ms i) h)

    pub untag_induction : (ms : List (Descriptor D)) → P ms → P (untag tag dig ms)
    unfolding untag
    untag_induction ms h = elim (Bool-cases (tag == "")) [
      | inl t ↦ rw (t, untag) h
      | inr t ↦ rw (t, untag) (untag_loop_induction (length ms) ms t h)
    ]

module _ {D : Type 0} ⦃e : Comparable D⦄ where
  pub data Moved (child : Descriptor D) (ms cs ms' cs' : List (Descriptor D)) : Type 0 where
    kept : ms' ≡ ms → cs' ≡ cs → Moved child ms cs ms' cs'
    moved :
        (i : ℕ) (cur : Descriptor D)
        → get_elem? ms i ≡ some cur
        → (cur.digest == child.digest) ≡ true
        → annotations_empty cur ≡ true
        → ms' ≡ delete_at ms i
        → cs' ≡ cs ++ child ∷ []
        → Moved child ms cs ms' cs'

  move_child-Moved :
      (ms cs : List (Descriptor D)) (child : Descriptor D)
      → Moved child ms cs (move_child (ms, cs) child).0 (move_child (ms, cs) child).1
  unfolding move_child
  move_child-Moved ms cs child =
      let q = λ (cur : Descriptor D). cur.digest == child.digest && annotations_empty cur in
      elim (Option-cases (index_func q ms)) [
        | inl h ↦ kept (rw (h, move_child) refl) (rw (h, move_child) refl)
        | inr (i, h) ↦
            let (cur, at, ok, _) = index_func-found q ms h in
            moved i cur at (ground arith) (ground arith) (rw (h, move_child) refl)
              (rw (h, move_child) refl)
      ]

  module _ (P : List (Descriptor D) → List (Descriptor D) → Type 0)
      (keeps : (child : Descriptor D) (ms cs ms' cs' : List (Descriptor D))
        → Moved child ms cs ms' cs'
        → P ms cs
        → P ms' cs') where
    pub move_children_induction :
        (children ms cs : List (Descriptor D))
        → P ms cs
        → P (move_children children (ms, cs)).0 (move_children children (ms, cs)).1
    unfolding move_children
    move_children_induction [] ms cs h = h
    move_children_induction (child ∷ rest) ms cs h =
        let (ms', cs') = move_child (ms, cs) child in
        move_children_induction rest ms' cs'
          (keeps child ms cs ms' cs' (move_child-Moved ms cs child) h)
