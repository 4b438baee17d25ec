-- ===== src/Referrers/Pages.antt =====
-- The pages that a list of referrers is split into (referrer.go).
use olareg.Shared.{
  ℕ, ◌≤◌, List, [], ◌∷◌, ◌++◌, true, false, ◌≡◌, refl, sym, ap, subst, ◌∙◌, arith, Bool-cases, inl,
  inr,
}
use olareg.Shared.Int.{ℤ, pos, negsuc, exceeds}
use olareg.Shared.Slices.{length}
use olareg.Types.Error.{Error, Result, ok, err, Result-cases}
use olareg.Types.Digest.{Bytes}
use olareg.Types.Descriptor.{Descriptor, Index}
use olareg.Types.Json.{Json}
use olareg.Referrers.{with_entries, flush, prepend, split_loop, referrer_split}
use olareg.Referrers.Parts.{
  IsSplit, Grows, too_large, fitting, oversized, joined, ArePages, IsCurrent, append_nil,
  append-append, joined-append, ArePages-append,
}

exceeds_mono : (z : ℤ) (m n : ℕ) → m ≤ n → exceeds m z ≡ true → exceeds n z ≡ true
exceeds_mono (pos l) m n h k = ground arith
exceeds_mono (negsuc l) m n h k = refl

module _ {D : Type 0} (json : Json D) (limit : ℤ) (i : Index D) where
  -- The page that is filled, as a part.
  record Flushed (cur : List (Descriptor D)) (last : Bytes) : Type 0 where
    parts : List (List (Descriptor D))
    are_pages : ArePages json limit i parts (flush limit last)
    entries : joined json limit i parts ≡ cur

  flush-Flushed :
      (cur : List (Descriptor D)) (last : Bytes)
      → Grows json limit i
      → IsCurrent json limit i cur last
      → Flushed cur last
  flush-Flushed [] [] g h = record { parts = []; are_pages = tt; entries = refl }
  flush-Flushed [] (b ∷ bs) g h = ground arith
  flush-Flushed (c ∷ cs) [] g h = absurd (g.some_byte (c ∷ cs) [] h.0 refl)
  flush-Flushed (c ∷ cs) (b ∷ bs) g h = record {
    parts = (c ∷ cs) ∷ [];
    are_pages = rw (h.1) (h.0, (h.1, tt));
    entries = append_nil json limit i (c ∷ cs);
  }

  too_large-false :
      (d : Descriptor D) (one : Bytes)
      → json.encode_index (with_entries i (d ∷ [])) ≡ ok one
      → exceeds (length one) limit ≡ false
      → too_large json limit i d ≡ false
  unfolding too_large
  too_large-false d one h k = rw (h, too_large) k

  too_large-true :
      (d : Descriptor D) (one : Bytes)
      → json.encode_index (with_entries i (d ∷ [])) ≡ ok one
      → exceeds (length one) limit ≡ true
      → too_large json limit i d ≡ true
  unfolding too_large
  too_large-true d one h k = rw (h, too_large) k

  -- What is known of a call of the loop once it has pages and errors.
  unfoldable pub Split :
      List (Descriptor D) → List (Descriptor D) → Result (List Bytes × List (Descriptor D)) → Type 0
  Split cur ds r =
      (pages : List Bytes) (errs : List (Descriptor D))
      → r ≡ ok (pages, errs)
      → IsSplit json limit i cur ds pages errs

  err-Split : (cur ds : List (Descriptor D)) (x : Error) → Split cur ds (err x)
  unfolding Split
  err-Split cur ds x pages errs q = ground arith

  ok-Split :
      (cur : List (Descriptor D)) (last : Bytes)
      → Flushed cur last
      → Split cur [] (ok (flush limit last, []))
  unfolding Split
  ok-Split cur last f pages errs q =
      let same : flush limit last ≡ pages = ground arith in
      let none_left : errs ≡ [] = ground arith in
      record {
        parts = f.parts;
        are_pages = subst (λ x. ArePages json limit i f.parts x) same f.are_pages;
        entries = f.entries ∙ sym (append_nil json limit i cur);
        errors = none_left;
      }

  -- A page is complete, and the entries go on with another one.
  prepend-Split :
      (cur next ds all bad : List (Descriptor D)) (last : Bytes)
      (r : Result (List Bytes × List (Descriptor D)))
      → Flushed cur last
      → next ++ fitting json limit i ds ≡ fitting json limit i all
      → bad ++ oversized json limit i ds ≡ oversized json limit i all
      → Split next ds r
      → Split cur all (prepend (flush limit last) bad r)
  unfolding prepend Split
  prepend-Split cur next ds all bad last (err x) f h k s pages errs q = ground arith
  prepend-Split cur next ds all bad last (ok (ps, es)) f h k s pages errs q =
      let t = s ps es refl in
      let same : pages ≡ flush limit last ++ ps = ground arith in
      let errors : errs ≡ bad ++ es = ground arith in
      record {
        parts = f.parts ++ t.parts;
        are_pages =
            subst (λ x. ArePages json limit i (f.parts ++ t.parts) x) (sym same)
              (ArePages-append json limit i f.parts t.parts (flush limit last) ps f.are_pages
                t.are_pages);
        entries =
            joined-append json limit i f.parts t.parts
            ∙ ap (λ x. x ++ joined json limit i t.parts) f.entries
            ∙ ap (λ x. cur ++ x) (t.entries ∙ h);
        errors = errors ∙ ap (λ x. bad ++ x) t.errors ∙ k;
      }

  -- An entry that fits on the page goes on it.
  same_page :
      (cur ds : List (Descriptor D)) (d : Descriptor D)
      (r : Result (List Bytes × List (Descriptor D)))
      → too_large json limit i d ≡ false
      → Split (cur ++ d ∷ []) ds r
      → Split cur (d ∷ ds) r
  unfolding Split
  same_page cur ds d r h s pages errs q =
      let t = s pages errs q in
      record {
        parts = t.parts;
        are_pages = t.are_pages;
        entries =
            t.entries
            ∙ append-append json limit i cur (d ∷ []) (fitting json limit i ds)
            ∙ rw (h) refl;
        errors = t.errors ∙ rw (h) refl;
      }

  longer_fits :
      (cur : List (Descriptor D)) (d : Descriptor D) (next : Bytes)
      → Grows json limit i
      → json.encode_index (with_entries i (cur ++ d ∷ [])) ≡ ok next
      → exceeds (length next) limit ≡ false
      → too_large json limit i d ≡ false
  unfolding too_large
  longer_fits cur d next g h k = elim (Result-cases (json.encode_index (with_entries i (d ∷ [])))) [
    | inl (x, q) ↦ rw (q, too_large) refl
    | inr (one, q) ↦
        rw (q, too_large)
          (ground
            (arith, exceeds_mono limit (length one) (length next) (g.longer cur d one next q h), k))
  ]

  IsCurrent-append :
      (cur : List (Descriptor D)) (d : Descriptor D) (next : Bytes)
      → json.encode_index (with_entries i (cur ++ d ∷ [])) ≡ ok next
      → exceeds (length next) limit ≡ false
      → IsCurrent json limit i (cur ++ d ∷ []) next
  IsCurrent-append [] d next h k = (h, k)
  IsCurrent-append (c ∷ cs) d next h k = (h, k)

  pub split_loop-Split :
      (ds cur : List (Descriptor D)) (last : Bytes)
      → Grows json limit i
      → IsCurrent json limit i cur last
      → Split cur ds (split_loop json limit i ds cur last)
  unfolding split_loop
  split_loop-Split [] cur last g h = ok-Split cur last (flush-Flushed cur last g h)
  split_loop-Split (d ∷ ds) cur last g h =
      elim (Result-cases (json.encode_index (with_entries i (cur ++ d ∷ [])))) [
        | inl (x, q) ↦ rw (q, split_loop) (err-Split cur (d ∷ ds) x)
        | inr (next, q) ↦ elim (Bool-cases (exceeds (length next) limit)) [
          | inr k ↦
              rw (q, k, split_loop)
                (same_page cur ds d _ (longer_fits cur d next g q k)
                  (split_loop-Split ds (cur ++ d ∷ []) next g (IsCurrent-append cur d next q k)))
          | inl k ↦ elim (Result-cases (json.encode_index (with_entries i (d ∷ [])))) [
            | inl (x, r) ↦ rw (q, k, r, split_loop) (err-Split cur (d ∷ ds) x)
            | inr (one, r) ↦ elim (Bool-cases (exceeds (length one) limit)) [
              | inl l ↦
                  let t = too_large-true d one r l in
                  rw (q, k, r, l, split_loop)
                    (prepend-Split cur [] ds (d ∷ ds) (d ∷ []) last _ (flush-Flushed cur last g h)
                      (rw (t) refl) (rw (t) refl) (split_loop-Split ds [] [] g refl))
              | inr l ↦
                  let t = too_large-false d one r l in
                  rw (q, k, r, l, split_loop)
                    (prepend-Split cur (d ∷ []) ds (d ∷ ds) [] last _ (flush-Flushed cur last g h)
                      (rw (t) refl) (rw (t) refl) (split_loop-Split ds (d ∷ []) one g (r, l)))
            ]
          ]
        ]
      ]

  prepend_total :
      (ps : List Bytes) (bad : List (Descriptor D)) (r : Result (List Bytes × List (Descriptor D)))
      → (x : List Bytes × List (Descriptor D)) × (r ≡ ok x)
      → (y : List Bytes × List (Descriptor D)) × (prepend ps bad r ≡ ok y)
  unfolding prepend
  prepend_total ps bad (err e) h = ground arith
  prepend_total ps bad (ok (qs, es)) h = ((ps ++ qs, bad ++ es), refl)

  split_loop_total :
      (ds cur : List (Descriptor D)) (last : Bytes)
      → Grows json limit i
      → (r : List Bytes × List (Descriptor D)) × (split_loop json limit i ds cur last ≡ ok r)
  unfolding split_loop
  split_loop_total [] cur last g = ((flush limit last, []), refl)
  split_loop_total (d ∷ ds) cur last g =
      let n = g.total (cur ++ d ∷ []) in
      let o = g.total (d ∷ []) in
      elim (Bool-cases (exceeds (length n.0) limit)) [
        | inr k ↦ rw (n.1, k, split_loop) (split_loop_total ds (cur ++ d ∷ []) n.0 g)
        | inl k ↦ elim (Bool-cases (exceeds (length o.0) limit)) [
          | inl l ↦
              rw (n.1, k, o.1, l, split_loop)
                (prepend_total (flush limit last) (d ∷ []) _ (split_loop_total ds [] [] g))
          | inr l ↦
              rw (n.1, k, o.1, l, split_loop)
                (prepend_total (flush limit last) [] _ (split_loop_total ds (d ∷ []) o.0 g))
        ]
      ]

  -- A list of referrers whose pages can be written, each not empty and no shorter than one of its last
  -- entry alone, is split into pages within the limit. In order, the pages hold the entries that fit on a
  -- page alone, each once; the errors are for the entries that do not.
  pub referrer_split-IsSplit :
      (in_bytes : Bytes)
      → Grows json limit i
      → json.decode_index in_bytes ≡ ok i
      → (pages : List Bytes) × ((errs : List (Descriptor D)) × ((referrer_split json in_bytes limit
              ≡ ok (pages, errs))
            × IsSplit json limit i [] i.manifests pages errs))
  unfolding referrer_split Split
  referrer_split-IsSplit in_bytes g h =
      let t = split_loop_total i.manifests [] [] g in
      let s = split_loop-Split i.manifests [] [] g refl in
      (t.0.0, (t.0.1, (rw (h, referrer_split) t.1, s t.0.0 t.0.1 t.1)))
