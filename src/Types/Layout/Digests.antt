-- ===== src/Types/Layout/Digests.antt =====
-- Which digests an index knows, as an entry or as a child, before and after `AddDesc`
-- (types/layout.go).
use olareg.Shared.{
  ◌+◌, ◌≤◌, ◌<◌, String, List, true, ◌&&◌, not, ◌≡◌, ◌≢◌, refl, sym, subst, ◌∙◌, Comparable, ◌==◌,
  ==_iff, ==_self, string_comparable, arith, Option-cases, Bool-cases, inl, inr,
}
use olareg.Shared.Slices.{find?, index_func, delete_at, count_p, delete_func}
use olareg.Shared.Counting.{
  index_func-found, any-count, count_p-delete_at, count_p-set, count_p-append, count_p-single,
  count_p_mono, count_p_congr, count_p-delete_func, get_elem?-count, find?-count, find?-some,
  find?-get_elem?,
}
use olareg.Types.Error.{ok}
use olareg.Types.Descriptor.{Descriptor, annotation_val, annot_ref_name, annot_referrer_subject}
use olareg.Types.Layout.{
  Clock, LayoutIndex, LayoutIndexOpt, apply_opts, has_tag, has_digest, drop_tag, move_children,
  untag, compatible, place, place_referrer, has_subject,
}
use olareg.Types.Layout.History.{stamp}
use olareg.Types.Layout.Lemmas.{drop_tag-digest}
use olareg.Types.Layout.Operations.{strip, get_digest, insert_desc, add_desc}
use olareg.Types.Layout.Steps.{first_index-find?}
use olareg.Types.Layout.Untag.{Untagged, Moved, untag_induction, move_children_induction}
use olareg.Types.Layout.Place.{Placed, place-Placed}

module _ {D : Type 0} ⦃e : Comparable D⦄ where
  -- The digest is that of an entry or of a child.
  unfoldable pub Knows : D → LayoutIndex D → Type 0
  Knows q li =
      0 < count_p (has_digest q) li.index.manifests + count_p (has_digest q) li.child_manifests

  -- `GetDesc` finds a digest that the index knows.
  pub get_digest-Knows :
      (q : D) (li : LayoutIndex D)
      → Knows q li
      → (c : Descriptor D) × (get_digest q li ≡ ok c) × (c.digest ≡ q)
  unfolding Knows get_digest strip
  get_digest-Knows q li h =
      let ms = li.index.manifests in
      let cs = li.child_manifests in
      let same = λ (c : Descriptor D) (t : has_digest q c ≡ true). (==_iff c.digest q).0 t in
      elim (Option-cases (find? (has_digest q) ms)) [
        | inr (c, f) ↦ (
          strip c,
          ground (arith, first_index-find? (has_digest q) ms),
          same c (find?-some (has_digest q) ms f),
        )
        | inl f ↦
            let (c, f') =
              find?-count (has_digest q) cs (ground (arith, find?-count (has_digest q) ms)) in
            (
              strip c,
              ground
                  (arith, first_index-find? (has_digest q) ms, first_index-find? (has_digest q) cs),
              same c (find?-some (has_digest q) cs f'),
            )
      ]

  -- What `GetDesc` finds for a digest, the index knows.
  pub Knows-get_digest :
      (q : D) (li : LayoutIndex D) {c : Descriptor D} → get_digest q li ≡ ok c → Knows q li
  unfolding Knows get_digest
  Knows-get_digest q li {c} h =
      let ms = li.index.manifests in
      let cs = li.child_manifests in
      elim (Option-cases (find? (has_digest q) ms)) [
        | inr (x, f) ↦
            let (i, at) = find?-get_elem? (has_digest q) ms f in
            ground (arith, get_elem?-count (has_digest q) ms i at (find?-some (has_digest q) ms f))
        | inl f ↦ elim (Option-cases (find? (has_digest q) cs)) [
          | inr (x, f') ↦
              let (i, at) = find?-get_elem? (has_digest q) cs f' in
              ground
                (arith, get_elem?-count (has_digest q) cs i at (find?-some (has_digest q) cs f'))
          | inl f' ↦ absurd (
              ground
                (arith, first_index-find? (has_digest q) ms, first_index-find? (has_digest q) cs))
        ]
      ]

  Moved-count_p :
      (q : D) (child : Descriptor D) (ms cs ms' cs' : List (Descriptor D))
      → Moved child ms cs ms' cs'
      → count_p (has_digest q) ms' + count_p (has_digest q) cs'
        ≡ count_p (has_digest q) ms + count_p (has_digest q) cs
  Moved-count_p q child ms cs ms' cs' (Moved.kept a b) = rw (a, b) refl
  Moved-count_p q child ms cs ms' cs' (Moved.moved i cur at same _ a b) =
      rw (a, b, count_p-append, count_p-single)
        (ground (arith, count_p-delete_at (has_digest q) ms i at, ==_iff cur.digest child.digest))

  others_have :
      (dig q : D) (tag : String) (ms : List (Descriptor D))
      → dig ≡ q
      → count_p (λ c. c.digest == dig && not (has_tag tag c)) ms ≤ count_p (has_digest q) ms
  others_have dig q tag ms same =
      count_p_mono (λ c. c.digest == dig && not (has_tag tag c)) (has_digest q) ms
        (λ c h. ground (arith, ==_iff c.digest dig, ==_iff c.digest q))

  Untagged-keeps :
      (tag : String) (dig q : D) (ms ms' : List (Descriptor D))
      → Untagged tag dig ms ms'
      → 0 < count_p (has_digest q) ms
      → 0 < count_p (has_digest q) ms'
  Untagged-keeps tag dig q ms ms' (Untagged.kept a) h = rw a h
  Untagged-keeps tag dig q ms ms' (Untagged.deleted i cur at _ tagged o a) h =
      let other = λ (c : Descriptor D). c.digest == cur.digest && not (has_tag tag c) in
      rw a (
        ground (
          arith,
          any-count other ms o,
          count_p-delete_at other ms i at,
          count_p-delete_at (has_digest q) ms i at,
          ==_iff cur.digest q,
          others_have cur.digest q tag (delete_at ms i),
        ))
  Untagged-keeps tag dig q ms ms' (Untagged.dropped i cur at _ _ _ a) h =
      rw a (ground (arith, count_p-set (has_digest q) ms i (drop_tag cur) at, drop_tag-digest cur))

  move_children_count :
      (q : D) (children ms cs : List (Descriptor D))
      → let moved = move_children children (ms, cs) in
        count_p (has_digest q) moved.0 + count_p (has_digest q) moved.1
        ≡ count_p (has_digest q) ms + count_p (has_digest q) cs
  move_children_count q children ms cs =
      move_children_induction
        (λ ms' cs'.
          count_p (has_digest q) ms' + count_p (has_digest q) cs'
          ≡ count_p (has_digest q) ms + count_p (has_digest q) cs)
        (λ child a b a' b' m h. Moved-count_p q child a b a' b' m ∙ h) children ms cs refl

  untag_keeps :
      (tag : String) (dig q : D) (ms : List (Descriptor D))
      → 0 < count_p (has_digest q) ms
      → 0 < count_p (has_digest q) (untag tag dig ms)
  untag_keeps tag dig q =
      untag_induction tag dig (λ ms. 0 < count_p (has_digest q) ms)
        (λ ms ms' _ u h. Untagged-keeps tag dig q ms ms' u h)

  Placed-keeps :
      (tag : String) (d : Descriptor D) (q : D) (ms ms' : List (Descriptor D))
      → Placed tag d ms ms'
      → count_p (has_digest q) ms ≤ count_p (has_digest q) ms'
  Placed-keeps tag d q ms ms' (Placed.appended _ a) = rw (a, count_p-append) (omega arith)
  Placed-keeps tag d q ms ms' (Placed.replaced i cur at same _ _ a) =
      rw a (ground (arith, count_p-set (has_digest q) ms i d at, ==_iff cur.digest d.digest))
  Placed-keeps tag d q ms ms' (Placed.kept _ _ _ _ _ a) = rw a (omega arith)

  Placed-self :
      (tag : String) (d : Descriptor D) (ms ms' : List (Descriptor D))
      → Placed tag d ms ms'
      → 0 < count_p (has_digest d.digest) ms'
  unfolding compatible
  Placed-self tag d ms ms' (Placed.appended _ a) =
      rw (a, count_p-append, count_p-single, ==_self d.digest) (omega arith)
  Placed-self tag d ms ms' (Placed.replaced i cur at same _ _ a) = rw a (
      ground (
        arith,
        count_p-set (has_digest d.digest) ms i d at,
        ==_self d.digest,
        get_elem?-count (has_digest d.digest) ms i at same,
      ))
  Placed-self tag d ms ms' (Placed.kept i cur at fits _ a) =
      rw a (get_elem?-count (has_digest d.digest) ms i at (ground arith))

  -- A child of another digest stays a child.
  count_children :
      (q dig : D) (cs : List (Descriptor D))
      → q ≢ dig
      → count_p (has_digest q) (delete_func (has_digest dig) cs) ≡ count_p (has_digest q) cs
  count_children q dig cs other = rw count_p-delete_func (
      count_p_congr (λ c. has_digest q c && not (has_digest dig c)) (has_digest q) cs
        (λ c. ground (arith, ==_iff c.digest q, ==_iff c.digest dig)))

  referrer_self :
      (subject : String) (d : Descriptor D) (ms : List (Descriptor D))
      → 0 < count_p (has_digest d.digest) (place_referrer subject d ms)
  unfolding place_referrer
  referrer_self subject d ms = elim (Option-cases (index_func (has_subject subject) ms)) [
    | inl h ↦ rw (h, place_referrer, count_p-append, count_p-single, ==_self d.digest) (omega arith)
    | inr (i, h) ↦
        let (x, at, _, _) = index_func-found (has_subject subject) ms h in
        let q = has_digest d.digest in
        rw (h, place_referrer)
          (ground (arith, count_p-set q ms i d at, ==_self d.digest, get_elem?-count q ms i at))
  ]

module _ {D : Type 0} ⦃e : Comparable D⦄ (clock : Clock) (d : Descriptor D)
    (opts : List (LayoutIndexOpt D)) (li : LayoutIndex D) where
  Knows-add_desc_self : Knows d.digest (add_desc clock d opts li)
  unfolding Knows add_desc insert_desc stamp
  Knows-add_desc_self =
      let tag = annotation_val d annot_ref_name in
      let subject = annotation_val d annot_referrer_subject in
      let moved =
        move_children (apply_opts opts).children (li.index.manifests, li.child_manifests) in
      let cleared = untag tag d.digest moved.0 in
      ground (
        arith,
        referrer_self subject (stamp clock d) moved.0,
        Placed-self tag (stamp clock d) cleared (place tag (stamp clock d) cleared)
            (place-Placed tag (stamp clock d) cleared),
      )

  -- After any descriptor is added, referrers responses included, its digest is found.
  pub get_digest-add_desc_self :
      (c : Descriptor D) × (get_digest d.digest (add_desc clock d opts li) ≡ ok c)
      × (c.digest ≡ d.digest)
  get_digest-add_desc_self =
      get_digest-Knows d.digest (add_desc clock d opts li) Knows-add_desc_self

  module _ (plain : annotation_val d annot_referrer_subject ≡ "") where
    Knows-add_desc_ne : (q : D) → q ≢ d.digest → Knows q li → Knows q (add_desc clock d opts li)
    unfolding Knows add_desc insert_desc stamp
    Knows-add_desc_ne q other h =
        let tag = annotation_val d annot_ref_name in
        let moved =
          move_children (apply_opts opts).children (li.index.manifests, li.child_manifests) in
        let cleared = untag tag d.digest moved.0 in
        let d' = stamp clock d in
        ground (
          arith,
          ==_iff (annotation_val d annot_referrer_subject) "",
          move_children_count q (apply_opts opts).children li.index.manifests li.child_manifests,
          count_children q d.digest moved.1 other,
          untag_keeps tag d.digest q moved.0,
          Placed-keeps tag d' q cleared (place tag d' cleared) (place-Placed tag d' cleared),
        )

    Knows-add_desc : (q : D) → Knows q li → Knows q (add_desc clock d opts li)
    Knows-add_desc q h = elim (Bool-cases (q == d.digest)) [
      | inl t ↦
          subst (λ x. Knows x (add_desc clock d opts li)) (sym ((==_iff q d.digest).0 t))
            Knows-add_desc_self
      | inr t ↦ Knows-add_desc_ne q (λ h. cc (t, (==_iff q d.digest).1 h)) h
    ]

    -- Adding an entry that is no referrers response, also when it moves a tag or takes children,
    -- loses no digest: what was found by digest before is found after.
    pub get_digest-add_desc :
        (q : D) {c : Descriptor D}
        → get_digest q li ≡ ok c
        → (c' : Descriptor D) × (get_digest q (add_desc clock d opts li) ≡ ok c') × (c'.digest ≡ q)
    get_digest-add_desc q h =
        get_digest-Knows q (add_desc clock d opts li) (Knows-add_desc q (Knows-get_digest q li h))
