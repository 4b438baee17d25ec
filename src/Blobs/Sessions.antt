-- ===== src/Blobs/Sessions.antt =====
-- A session that is open stays open while bytes are written, and the upload takes them (blob.go, over
-- internal/store/mem.go).
use olareg.Shared.{
  ℕ, String, List, [], ◌∷◌, none, ◌≡◌, refl, sym, subst, Comparable, ==_iff, arith, Option-cases,
  Bool-cases, leb, some, ◌∙◌, inl, inr, string_comparable,
}
use olareg.Shared.GoMap
use olareg.Shared.GoMap.{lookup-put}
use olareg.Shared.Slices.{length}
use olareg.Types.Error.{ok}
use olareg.Types.Digest.{Bytes}
use olareg.Cache
use olareg.Cache.Prune.{prune_age-young}
use olareg.Store.Mem.{
  MemRepo, Prune, by_age, by_count, prune, fire_timer, run_pruning, with_uploads,
}
use olareg.Store.Upload.{MemRepoUpload, write}
use olareg.Blobs.{Body}
use olareg.Blobs.Client.{InTime, last_time, prunings}
use olareg.Blobs.Handlers.{copy_chunks, copy}

module _ {D : Type 0} where
  -- The sessions have the address under the identifier, last used at some time, and are removed
  -- without asking; no pruning by their number is under way.
  pub record Open (id : String) (ref used age : ℕ) (mr : MemRepo D) : Type 0 where
    pub found : GoMap.lookup id mr.uploads.entries ≡ some (record { used = used; value = ref })
    pub free : mr.uploads.prune_fn ≡ none
    pub limit : mr.uploads.min_age ≡ age
    pub idle : mr.pruning ≡ 0

  pub get-Open :
      (now : ℕ) (id : String) (ref used age : ℕ) (mr : MemRepo D)
      → Open id ref used age mr
      → ((Cache.get now id mr.uploads).1 ≡ ok ref)
        × Open id ref now age (with_uploads (Cache.get now id mr.uploads).0 mr)
  unfolding Cache.get Cache.touch
  get-Open now id ref used age mr o =
      rw (o.found, Cache.get, Cache.touch)
        (
          refl,
          record {
            found = ground (
              arith,
              lookup-put id id (record { used = now; value = ref }) mr.uploads.entries,
              ==_iff id id,
            );
            free = ground (arith, o.found, o.free);
            limit = ground (arith, o.found, o.limit);
            idle = o.idle;
          },
        )

  pub delete-Open :
      (id : String) (ref used age : ℕ) (mr : MemRepo D)
      → Open id ref used age mr
      → (Cache.delete id mr.uploads).1 ≡ none
  unfolding Cache.delete Cache.entry_error Cache.prune_error
  delete-Open id ref used age mr o = ground (arith, o.free)

  prune-Open :
      (p : Prune) (id : String) (ref used age : ℕ) (mr : MemRepo D)
      → InTime age used (p ∷ [])
      → Open id ref used age mr
      → Open id ref used age (prune p mr)
  unfolding prune fire_timer run_pruning
  prune-Open (by_count now sorted) id ref used age mr h o = rw (o.idle, prune, run_pruning) o
  prune-Open (by_age now order) id ref used age mr h o = elim (Option-cases mr.uploads.timer) [
    | inl q ↦ rw (q, prune, fire_timer) o
    | inr (t, q) ↦ elim (Bool-cases (leb t now)) [
      | inr g ↦ rw (q, g, prune, fire_timer) o
      | inl g ↦
          let y =
            prune_age-young now order mr.uploads id _ o.found (λ z. ground (arith, o.limit, h.0)) in
          rw (q, g, prune, fire_timer)
            (record { found = y.0; free = y.1.1 ∙ o.free; limit = y.1.0 ∙ o.limit; idle = o.idle })
    ]
  ]

  pub prunings-Open :
      (gap : List Prune) (id : String) (ref used age : ℕ) (mr : MemRepo D)
      → InTime age used gap
      → Open id ref used age mr
      → Open id ref used age (prunings gap mr)
  unfolding prunings
  prunings-Open [] id ref used age mr h o = o
  prunings-Open (by_age now order ∷ ps) id ref used age mr h o =
      prunings-Open ps id ref used age (prune (by_age now order) mr) h.1
        (prune-Open (by_age now order) id ref used age mr (h.0, tt) o)
  prunings-Open (by_count now sorted ∷ ps) id ref used age mr h o =
      prunings-Open ps id ref used age (prune (by_count now sorted) mr) h
        (prune-Open (by_count now sorted) id ref used age mr tt o)

module _ {D A : Type 0} ⦃e : Comparable D⦄ where
  write-Open :
      (now : ℕ) (p : Bytes) (mr : MemRepo D) (u : MemRepoUpload D A) (ref used age : ℕ)
      → Open u.session_id ref used age mr
      → ((write now p mr u).1 ≡ ok (length p))
        × (Open u.session_id ref now age (write now p mr u).0.0
            × ((write now p mr u).0.1.session_id ≡ u.session_id))
  unfolding write
  write-Open now p mr u ref used age o =
      let g = get-Open now u.session_id ref used age mr o in rw (g.0, write) (refl, (g.1, refl))

  copy_chunks-Open :
      (ps : List (ℕ × Bytes)) (mr : MemRepo D) (u : MemRepoUpload D A) (ref used age : ℕ)
      → Open u.session_id ref used age mr
      → ((copy_chunks ps mr u).1 ≡ none)
        × Open u.session_id ref (last_time used ps) age (copy_chunks ps mr u).0.0
  unfolding copy_chunks
  copy_chunks-Open [] mr u ref used age o = (refl, o)
  copy_chunks-Open ((now, p) ∷ ps) mr u ref used age o =
      let w = write-Open now p mr u ref used age o in
      let r = (write now p mr u).0 in
      let rest =
        copy_chunks-Open ps r.0 r.1 ref now age
          (subst (λ id. Open id ref now age r.0) (sym w.1.1) w.1.0) in
      rw (w.0, copy_chunks)
        (
          rest.0,
          subst (λ id. Open id ref (last_time now ps) age (copy_chunks ps r.0 r.1).0.0) w.1.1
              rest.1,
        )

  -- A body that ends without an error is copied whole.
  pub copy-Open :
      (body : Body) (mr : MemRepo D) (u : MemRepoUpload D A) (ref used age : ℕ)
      → body.error ≡ none
      → Open u.session_id ref used age mr
      → ((copy body mr u).1 ≡ none)
        × Open u.session_id ref (last_time used body.chunks) age (copy body mr u).0.0
  unfolding copy
  copy-Open body mr u ref used age h o =
      let c = copy_chunks-Open body.chunks mr u ref used age o in rw (c.0, copy) (h, c.1)
