-- ===== src/Tags/Pages.antt =====
-- The pages of a list of tags (tag.go).
use olareg.Shared.{
  ℕ, zero, suc, ◌<◌, String, List, ◌++◌, Option, none, some, subst, Bool, true, false, Comparable,
  ◌&&◌, not, ◌≡◌, ◌≢◌, ◌↔◌, ◌⊎◌, inl, inr, refl, sym, ap, ◌∙◌, ◌==◌, ==_iff, string_comparable, ltb,
  arith, Bool-cases, Option-cases,
}
use mathlib.Core.Option
use olareg.Shared.Numerals.{parse_int}
use olareg.Shared.Int.{pos, negsuc}
use olareg.Shared.Slices.{length, get_elem?, take, drop, any}
use olareg.Shared.Members.{contains}
use olareg.Shared.Texts.{lt_text}
use olareg.Shared.Sorting.{
  sort_texts, keep_after, IsAscending, keep_after-sort, keep_after-keep_after, keep_after-drop,
  contains-sort, contains-keep_after, sort-IsAscending, keep_after-IsDistinct,
}
use olareg.Types.Error.{ok}
use olareg.Types.Descriptor.{Index}
use olareg.Types.Layout.{has_tag}
use olareg.Types.Layout.WellFormed.{WellFormed}
use olareg.Tags.{TagList, TagQuery, listed, panics, tags_after, cut, paged, tag_list}
use olareg.Tags.Lists.{
  tag_names, tags_after-keep_after, contains-tag_names, tag_names-IsDistinct, length-tags_after,
  length-sort, get_elem?-keep_after, take-drop, length-drop, cut-more, cut-all, cut-panics,
}

module _ {D : Type 0} where
  -- A client that follows the links, at most so often, and joins the pages that it gets.
  unfoldable pub follow_links : String → ℕ → TagQuery → Index D → Option (List String)
  follow_links name zero query ix = none
  follow_links name (suc fuel) query ix = elim (tag_list name query false (ok (ok ix))) [
    | listed tl none _ ↦ some tl.tags
    | listed tl (some link) _ ↦ Option.map (λ ts. tl.tags ++ ts) (follow_links name fuel link ix)
    | _ ↦ none
  ]

  -- The whole list that is left after a text.
  abbrev pub sorted_after : String → Index D → List String
  sorted_after last ix = sort_texts (tags_after last ix.manifests)

  sorted_after-keep_after :
      (last : String) (ix : Index D)
      → sorted_after last ix ≡ keep_after last (sort_texts (tag_names ix.manifests))
  sorted_after-keep_after last ix =
      ap sort_texts (tags_after-keep_after last ix.manifests)
      ∙ sym (keep_after-sort last (tag_names ix.manifests))

module _ {D : Type 0} ⦃e : Comparable D⦄ where
  sorted_after-IsAscending :
      (last : String) (ix : Index D) → WellFormed ix.manifests → IsAscending (sorted_after last ix)
  sorted_after-IsAscending last ix v =
      subst (λ xs. IsAscending (sort_texts xs)) (sym (tags_after-keep_after last ix.manifests))
        (sort-IsAscending (keep_after last (tag_names ix.manifests)) (
          keep_after-IsDistinct last (tag_names ix.manifests)
            (tag_names-IsDistinct ix.manifests v.unique)))

  -- What is left after the last text of a page is the rest of the list.
  sorted_after-drop :
      (last t : String) (k : ℕ) (ix : Index D)
      → WellFormed ix.manifests
      → get_elem? (sorted_after last ix) k ≡ some t
      → sorted_after t ix ≡ drop (suc k) (sorted_after last ix)
  sorted_after-drop last t k ix v h =
      let all = sort_texts (tag_names ix.manifests) in
      let later : lt_text last t ≡ true =
        get_elem?-keep_after last t all k
          (ap (λ xs. get_elem? xs k) (sym (sorted_after-keep_after last ix)) ∙ h) in
      sorted_after-keep_after t ix
      ∙ sym (keep_after-keep_after last t all later)
      ∙ ap (keep_after t) (sym (sorted_after-keep_after last ix))
      ∙ keep_after-drop (sorted_after last ix) k t (sorted_after-IsAscending last ix v) h

  follow_links-fuel :
      (name : String) (query : TagQuery) (ix : Index D) (k fuel : ℕ)
      → WellFormed ix.manifests
      → parse_int query.n ≡ some (pos (suc k))
      → length (sorted_after query.last ix) < fuel
      → follow_links name fuel query ix ≡ some (sorted_after query.last ix)
  unfolding follow_links tag_list paged
  follow_links-fuel name query ix k zero v a h = absurd (omega (arith, h))
  follow_links-fuel name query ix k (suc fuel) v a h =
      let xs = sorted_after query.last ix in
      elim (Bool-cases (query.n == "")) [
        | inl q ↦ ground arith
        | inr q ↦ elim (Bool-cases (ltb (suc k) (length xs))) [
          | inr g ↦ rw (q, a, cut-all query k xs g, follow_links, tag_list, paged) refl
          | inl g ↦
              let more : suc k < length xs = ground arith in
              let r = cut-more query k xs more in
              let left = sorted_after-drop query.last r.0 k ix v r.1.0 in
              let rest =
                follow_links-fuel name (record query { last = r.0 }) ix k fuel v a
                  (omega (arith, h, ap length left, length-drop (suc k) xs, more)) in
              rw (q, a, r.1.1, rest, follow_links, tag_list, paged)
                (ap some (ap (λ ts. take (suc k) xs ++ ts) left ∙ take-drop (suc k) xs))
        ]
      ]

  -- In an index whose tags are unique, a client that asks for pages of k + 1 tags and follows the
  -- links gets, after at most one request more than there are entries, every tag after the first
  -- `last` once, in ascending order: what the pages join to is what one request without `n` lists.
  pub follow_links-tag_list :
      (name : String) (query : TagQuery) (ix : Index D) (k : ℕ)
      → WellFormed ix.manifests
      → parse_int query.n ≡ some (pos (suc k))
      → follow_links name (suc (length ix.manifests)) query ix ≡ some (sorted_after query.last ix)
  follow_links-tag_list name query ix k v a =
      follow_links-fuel name query ix k (suc (length ix.manifests)) v a (
        omega (
          arith,
          length-sort (tags_after query.last ix.manifests),
          length-tags_after query.last ix.manifests,
        ))

  contains-sorted_after :
      (last t : String) (ix : Index D)
      → contains (sorted_after last ix) t
        ≡ (not (t == "") && (lt_text last t && any (has_tag t) ix.manifests))
  contains-sorted_after last t ix = ground (
    arith,
    contains-sort (tags_after last ix.manifests) t,
    tags_after-keep_after last ix.manifests,
    contains-keep_after last t (tag_names ix.manifests),
    contains-tag_names t ix.manifests,
  )

  -- Without `n`, the list of an index whose tags are unique is in ascending order, each tag once, and
  -- holds a text exactly if it is not empty, is after `last`, and is the tag of an entry.
  pub tag_list-IsAscending :
      (name : String) (query : TagQuery) (is_head : Bool) (ix : Index D)
      → WellFormed ix.manifests
      → query.n ≡ ""
      → (tl : TagList) × ((tag_list name query is_head (ok (ok ix)) ≡ listed tl none (not is_head))
          × (IsAscending tl.tags
              × ((t : String)
                  → contains tl.tags t
                    ≡ (not (t == "") && (lt_text query.last t && any (has_tag t) ix.manifests)))))
  unfolding tag_list paged
  tag_list-IsAscending name query is_head ix v h = (
    record { name = name; tags = sorted_after query.last ix },
    (
      rw (h, tag_list, paged) refl,
      (sorted_after-IsAscending query.last ix v, λ t. contains-sorted_after query.last t ix),
    ),
  )

  -- The handler panics exactly if it has an index and `n` is a number below 0, or 0 where a tag is
  -- after `last`.
  pub tag_list-panics :
      (name : String) (query : TagQuery) (is_head : Bool) (ix : Index D)
      → query.n ≢ ""
      → (tag_list name query is_head (ok (ok ix)) ≡ panics) ↔ (
          ((m : ℕ) × (parse_int query.n ≡ some (negsuc m)))
          ⊎ ((parse_int query.n ≡ some (pos 0))
              × (0 < length (tags_after query.last ix.manifests))))
  unfolding tag_list paged cut
  tag_list-panics name query is_head ix h = elim (Option-cases (parse_int query.n)) [
    | inl q ↦ ground (arith, ==_iff query.n "")
    | inr (z, q) ↦ ground (
      arith,
      ==_iff query.n "",
      cut-panics query z (sorted_after query.last ix),
      length-sort (tags_after query.last ix.manifests),
    )
  ]
