-- ===== src/Cache/Access.antt =====
-- What a read of the cache returns after each operation (internal/cache/cache.go).
use olareg.Shared.{
  ℕ, List, [], ◌∷◌, ◌++◌, none, some, true, ◌≡◌, ◌≢◌, refl, Comparable, ◌==◌, ==_iff, arith,
  Option-cases, inl, inr, if◌then◌else◌,
}
use olareg.Shared.GoMap
use olareg.Shared.GoMap.{lookup-put, lookup-delete}
use olareg.Shared.Slices.{any}
use olareg.Types.Error.{Error, not_found, Result, ok, err}
use olareg.Cache.{
  Cache, prune_error, stop_timer, touch, drop_entry, entry_error, delete, delete_loop, delete_all,
  get, set,
}

module _ {K V : Type 0} ⦃e : Comparable K⦄ where
  -- The value that `Get` returns, whatever the time.
  abbrev pub read : K → Cache K V → Result V
  read j c = (get 0 j c).1

  -- A read after `Set` has the new value at its key, and elsewhere what it had.
  pub read-set :
      (now : ℕ) (key j : K) (val : V) (c : Cache K V)
      → read j (set now key val c).0 ≡ (if key == j then ok val else read j c)
  unfolding get set
  read-set now key j val c =
      ground (arith, lookup-put key j (record { used = now; value = val }) c.entries)

  entries-stop_timer : (c : Cache K V) → (stop_timer c).entries ≡ c.entries
  unfolding stop_timer
  entries-stop_timer c = ground arith

  pub lookup-touch :
      (now : ℕ) (key j : K) (c : Cache K V)
      → GoMap.lookup j (touch now key c).entries ≡ (
          if key == j
          then (elim (GoMap.lookup j c.entries) [
            | none ↦ none
            | some x ↦ some (record x { used = now })
          ])
          else GoMap.lookup j c.entries)
  unfolding touch
  lookup-touch now key j c = elim (Option-cases (GoMap.lookup key c.entries)) [
    | inl h ↦ ground (arith, ==_iff key j)
    | inr (x, h) ↦
        ground (arith, ==_iff key j, lookup-put key j (record x { used = now }) c.entries)
  ]

  -- A read returns the value and changes what no later read returns.
  pub read-get : (now : ℕ) (key j : K) (c : Cache K V) → read j (get now key c).0 ≡ read j c
  unfolding get
  read-get now key j c = ground (arith, lookup-touch now key j c)

  -- `Delete` removes its key and no other, unless `pruneFn` fails on the entry: then it returns
  -- that error, and every read is as it was.
  pub read-delete :
      (key j : K) (c : Cache K V)
      → ((delete key c).1 ≡ entry_error key c)
        × (read j (delete key c).0 ≡ (elim (entry_error key c) [
          | some _ ↦ read j c
          | none ↦ if key == j then err not_found else read j c
        ]))
  unfolding get delete
  read-delete key j c = elim (Option-cases (entry_error key c)) [
    | inl h ↦ (
      rw (h, delete) refl,
      rw (h, delete, entries-stop_timer) (ground (arith, lookup-delete key j c.entries)),
    )
    | inr (x, h) ↦ (rw (h, delete) refl, rw (h, delete) refl)
  ]

  lookup-delete_self :
      (key : K) (c : Cache K V)
      → (delete key c).1 ≡ none
      → GoMap.lookup key (delete key c).0.entries ≡ none
  unfolding delete
  lookup-delete_self key c h = elim (Option-cases (entry_error key c)) [
    | inl q ↦
        rw (q, delete, entries-stop_timer)
          (ground (arith, ==_iff key key, lookup-delete key key c.entries))
    | inr (x, q) ↦ ground arith
  ]

  -- Once a key is deleted without an error, `Get` does not find it and changes nothing.
  pub get-delete :
      (now : ℕ) (key : K) (c : Cache K V)
      → (delete key c).1 ≡ none
      → get now key (delete key c).0 ≡ ((delete key c).0, err not_found)
  unfolding get
  get-delete now key c h =
      let gone : GoMap.lookup key (delete key c).0.entries ≡ none = lookup-delete_self key c h in
      rw (gone, get) refl

  pub entry_error-drop :
      (key j : K) (c : Cache K V)
      → entry_error j (drop_entry key c) ≡ (if key == j then none else entry_error j c)
  unfolding entry_error prune_error
  entry_error-drop key j c = ground (arith, lookup-delete key j c.entries)

  -- What the loop of `DeleteAll` leaves of a key: all if `pruneFn` fails on it, else nothing once
  -- the key has been met.
  delete_loop-lookup :
      (order : List K) (c : Cache K V) (errs : List Error) (j : K)
      → GoMap.lookup j (delete_loop order c errs).0.entries ≡ (elim (entry_error j c) [
        | some _ ↦ GoMap.lookup j c.entries
        | none ↦ if any (λ k. k == j) order then none else GoMap.lookup j c.entries
      ])
  unfolding delete_loop any
  delete_loop-lookup [] c errs j = ground arith
  delete_loop-lookup (key ∷ rest) c errs j = elim (Option-cases (entry_error key c)) [
    | inr (x, h) ↦
        rw (h, delete_loop)
          (ground (arith, ==_iff key j, delete_loop-lookup rest c (errs ++ x ∷ []) j))
    | inl h ↦
        rw (h, delete_loop)
          (ground (
            arith,
            ==_iff key j,
            entry_error-drop key j c,
            lookup-delete key j c.entries,
            delete_loop-lookup rest (drop_entry key c) errs j,
          ))
  ]

  -- `DeleteAll`, in whatever order it meets the keys, leaves exactly the entries on which `pruneFn`
  -- fails, and those as they were.
  pub read-delete_all :
      (order : List K) (c : Cache K V) (j : K)
      → (read j c ≢ err not_found → any (λ k. k == j) order ≡ true)
      → read j (delete_all order c).0
        ≡ (elim (entry_error j c) [ some _ ↦ read j c | none ↦ err not_found ])
  unfolding get delete_all
  read-delete_all order c j met =
      let same = entries-stop_timer (delete_loop order c []).0 in
      elim (Option-cases (GoMap.lookup j c.entries)) [
        | inl h ↦ ground (arith, same, delete_loop-lookup order c [] j)
        | inr (x, h) ↦
            let found : any (λ k. k == j) order ≡ true = met (λ q. ground arith) in
            ground (arith, same, delete_loop-lookup order c [] j)
      ]
