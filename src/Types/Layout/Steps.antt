-- ===== src/Types/Layout/Steps.antt =====
-- The steps of `AddDesc` (types/layout.go): which entries they leave as they were.
use olareg.Shared.{
  ℕ, zero, suc, String, List, [], ◌∷◌, none, some, Bool, true, false, ◌&&◌, not, ◌≡◌, ◌≢◌, refl,
  sym, ◌∙◌, Comparable, ◌==◌, ==_iff, string_comparable, arith, Option-cases, inl, inr,
}
use olareg.Shared.Slices.{length, get_elem?, find?, count_p, drop, index_func}
use olareg.Shared.Counting.{
  index_func-found, index_func-none, find?-delete_at, find?-set, find?-none, count_p-drop_all,
  drop-delete_at, drop-set, drop-get_elem?, drop_missing,
}
use olareg.Types.Error.{ok}
use olareg.Types.Digest.{DigestLib}
use olareg.Types.Descriptor.{Descriptor}
use olareg.Types.Tag.{ref_tag_re}
use olareg.Types.Layout.{
  LayoutIndex, has_tag, drop_tag, annotations_empty, move_child, move_children, untag_entry,
  untag_at, untag_loop, untag,
}
use olareg.Types.Layout.Lemmas.{drop_tag-tag}
use olareg.Types.Layout.Operations.{first_index, get_desc}

module _ {D : Type 0} ⦃e : Comparable D⦄ where
  pub first_index-find? :
      (p : Descriptor D → Bool) (ms : List (Descriptor D)) → first_index p ms ≡ find? p ms
  unfolding first_index
  first_index-find? p ms = elim (Option-cases (index_func p ms)) [
    | inl h ↦ rw (h, first_index) (sym (find?-none p ms (index_func-none p ms h)))
    | inr (i, h) ↦
        let (x, at, _, first) = index_func-found p ms h in rw (h, first_index) (at ∙ sym first)
  ]

  -- The lookup of a tag is the first entry that has it.
  pub get_desc-tag :
      (lib : DigestLib D) (t : String) (li : LayoutIndex D) {c : Descriptor D}
      → ref_tag_re t ≡ true
      → find? (has_tag t) li.index.manifests ≡ some c
      → get_desc lib t li ≡ ok c
  unfolding get_desc
  get_desc-tag lib t li r h = rw (r, first_index-find?, h)

  -- Entries without annotations have no tag, and only those move to the children.
  module _ (p : Descriptor D → Bool)
      (tagged : (c : Descriptor D) → annotations_empty c ≡ true → p c ≡ false) where
    move_child-find? :
        (ms cs : List (Descriptor D)) (child : Descriptor D)
        → find? p (move_child (ms, cs) child).0 ≡ find? p ms
    unfolding move_child
    move_child-find? ms cs child =
        let q = λ (cur : Descriptor D). cur.digest == child.digest && annotations_empty cur in
        elim (Option-cases (index_func q ms)) [
          | inl h ↦ rw (h, move_child)
          | inr (i, h) ↦
              let (x, at, qx, _) = index_func-found q ms h in
              rw (h, move_child) (find?-delete_at p ms i at (tagged x (ground arith)))
        ]

    pub move_children-find? :
        (children ms cs : List (Descriptor D))
        → find? p (move_children children (ms, cs)).0 ≡ find? p ms
    unfolding move_children
    move_children-find? [] ms cs = refl
    move_children-find? (child ∷ rest) ms cs =
        let (ms', cs') = move_child (ms, cs) child in
        move_children-find? rest ms' cs' ∙ move_child-find? ms cs child

  module _ (tag : String) (dig : D) (p : Descriptor D → Bool)
      (other : (c : Descriptor D) → has_tag tag c ≡ true → p c ≡ false)
      (dropped : (c : Descriptor D) → p (drop_tag c) ≡ false) where
    untag_at-find? :
        (ms : List (Descriptor D)) (mi : ℕ) → find? p (untag_at tag dig ms mi) ≡ find? p ms
    unfolding untag_at untag_entry
    untag_at-find? ms mi = elim (Option-cases (get_elem? ms mi)) [
      | inl h ↦ rw (h, untag_at)
      | inr (x, h) ↦ ground (
        arith,
        other x,
        dropped x,
        find?-delete_at p ms mi {x = x},
        find?-set p ms mi (drop_tag x) {x = x},
      )
    ]

    untag_loop-find? :
        (n : ℕ) (ms : List (Descriptor D)) → find? p (untag_loop tag dig n ms) ≡ find? p ms
    unfolding untag_loop
    untag_loop-find? zero ms = refl
    untag_loop-find? (suc mi) ms =
        untag_loop-find? mi (untag_at tag dig ms mi) ∙ untag_at-find? ms mi

    pub untag-find? : (ms : List (Descriptor D)) → find? p (untag tag dig ms) ≡ find? p ms
    unfolding untag
    untag-find? ms = ground (arith, untag_loop-find? (length ms) ms)

  -- An entry with the tag on another digest.
  abbrev pub stale : String → D → Descriptor D → Bool
  stale tag dig c = not (c.digest == dig) && has_tag tag c

  -- No tag on another digest is left behind the point that the loop has reached.
  module _ (tag : String) (dig : D) (some_tag : tag ≢ "") where
    stale_past :
        (ms : List (Descriptor D)) (mi : ℕ)
        → get_elem? ms mi ≡ none
        → count_p (stale tag dig) (drop (suc mi) ms) ≡ 0
    unfolding count_p get_elem?
    stale_past [] mi h = refl
    stale_past (x ∷ ms) zero h = ground arith
    stale_past (x ∷ ms) (suc mi) h = stale_past ms mi h

    untag_at-stale :
        (ms : List (Descriptor D)) (mi : ℕ)
        → count_p (stale tag dig) (drop mi (untag_at tag dig ms mi))
          ≡ count_p (stale tag dig) (drop (suc mi) ms)
    unfolding untag_at untag_entry count_p
    untag_at-stale ms mi = elim (Option-cases (get_elem? ms mi)) [
      | inl h ↦ rw (h, untag_at) (rw (drop_missing ms mi h) (sym (stale_past ms mi h)))
      | inr (x, h) ↦ ground (
        arith,
        drop-delete_at ms mi,
        drop-set ms mi (drop_tag x) h,
        drop-get_elem? ms mi h,
        ==_iff "" tag,
        drop_tag-tag x,
      )
    ]

    untag_loop-stale :
        (n : ℕ) (ms : List (Descriptor D))
        → count_p (stale tag dig) (untag_loop tag dig n ms) ≡ count_p (stale tag dig) (drop n ms)
    unfolding untag_loop
    untag_loop-stale zero ms = refl
    untag_loop-stale (suc mi) ms =
        untag_loop-stale mi (untag_at tag dig ms mi) ∙ untag_at-stale ms mi

    pub untag-stale : (ms : List (Descriptor D)) → count_p (stale tag dig) (untag tag dig ms) ≡ 0
    unfolding untag
    untag-stale ms =
        ground (
          arith,
          ==_iff tag "",
          untag_loop-stale (length ms) ms,
          count_p-drop_all (stale tag dig) ms,
        )
