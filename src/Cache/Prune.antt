-- ===== src/Cache/Prune.antt =====
-- What `pruneAge` does to each entry (internal/cache/cache.go).
use olareg.Shared.{
  ℕ, ◌+◌, ◌≤◌, List, [], ◌∷◌, Option, none, some, true, ◌≡◌, ◌≢◌, ◌∙◌, nat_eqb, Bool-cases, refl,
  Comparable, ◌==◌, ==_iff, arith, Option-cases, inl, inr, if◌then◌else◌,
}
use olareg.Shared.GoMap
use olareg.Shared.GoMap.{lookup-delete}
use olareg.Shared.Slices.{any}
use olareg.Cache.{
  Entry, Cache, prune_error, touch, expired, age_entry, age_step, age_loop, next_timer, prune_age,
}
use olareg.Cache.Access.{lookup-touch}

module _ {K V : Type 0} ⦃e : Comparable K⦄ (now : ℕ) where
  -- What becomes of an entry: an old one goes, or is kept as used now if `pruneFn` fails on it.
  unfoldable pub aged : Cache K V → K → Option (Entry V) → Option (Entry V)
  aged c j none = none
  aged c j (some x) =
      if expired now c x
      then elim (prune_error c j x.value) [ some _ ↦ some (record x { used = now }) | none ↦ none ]
      else some x

  step_lookup :
      (key j : K) (c : Cache K V) (oldest : ℕ)
      → GoMap.lookup j (age_step now key (c, oldest)).0.entries
        ≡ (if key == j then aged c j (GoMap.lookup j c.entries) else GoMap.lookup j c.entries)
  unfolding age_step age_entry aged
  step_lookup key j c oldest = elim (Option-cases (GoMap.lookup key c.entries)) [
    | inl h ↦ ground (arith, ==_iff key j)
    | inr (x, h) ↦
        ground (arith, ==_iff key j, lookup-touch now key j c, lookup-delete key j c.entries)
  ]

  -- The settings of the cache stay.
  step_settings :
      (key : K) (c : Cache K V) (oldest : ℕ)
      → let c' = (age_step now key (c, oldest)).0 in
        (c'.min_age ≡ c.min_age) × (c'.max_age ≡ c.max_age) × (c'.prune_fn ≡ c.prune_fn)
  unfolding age_step age_entry touch
  step_settings key c oldest = ground arith

  aged_same :
      (c c' : Cache K V) (j : K) (o : Option (Entry V))
      → c'.min_age ≡ c.min_age
      → c'.prune_fn ≡ c.prune_fn
      → aged c' j o ≡ aged c j o
  unfolding aged prune_error
  aged_same c c' j none a p = refl
  aged_same c c' j (some x) a p = rw (a, p) refl

  aged_twice : (c : Cache K V) (j : K) (o : Option (Entry V)) → aged c j (aged c j o) ≡ aged c j o
  unfolding aged
  aged_twice c j none = refl
  aged_twice c j (some x) = ground arith

  loop_lookup :
      (order : List K) (c : Cache K V) (oldest : ℕ) (j : K)
      → GoMap.lookup j (age_loop now order (c, oldest)).0.entries ≡ (
          if any (λ k. k == j) order
          then aged c j (GoMap.lookup j c.entries)
          else GoMap.lookup j c.entries)
  unfolding age_loop any
  loop_lookup [] c oldest j = refl
  loop_lookup (key ∷ rest) c oldest j =
      let (c', oldest') = age_step now key (c, oldest) in
      let (a, _, p) = step_settings key c oldest in
      ground (
        arith,
        loop_lookup rest c' oldest' j,
        step_lookup key j c oldest,
        aged_same c c' j (GoMap.lookup j c'.entries) a p,
        aged_twice c j (GoMap.lookup j c.entries),
      )

  entries-next_timer : (oldest : ℕ) (c : Cache K V) → (next_timer now oldest c).entries ≡ c.entries
  unfolding next_timer
  entries-next_timer oldest c = ground arith

  -- With an age limit, `pruneAge` drops exactly the entries that were last used before the cutoff
  -- and on which `pruneFn` does not fail; where it fails the entry counts as used now, and every
  -- other entry is as it was, in whatever order the keys are met.
  pub lookup-prune_age :
      (order : List K) (c : Cache K V) (j : K)
      → c.min_age ≢ 0
      → (GoMap.lookup j c.entries ≢ none → any (λ k. k == j) order ≡ true)
      → GoMap.lookup j (prune_age now order c).entries ≡ aged c j (GoMap.lookup j c.entries)
  unfolding prune_age aged
  lookup-prune_age order c j limited met =
      let (c', oldest) = age_loop now order (c, now) in
      let same = entries-next_timer oldest c' in
      let loop = loop_lookup order c now j in
      elim (Option-cases (GoMap.lookup j c.entries)) [
        | inl h ↦ ground (arith, same, loop)
        | inr (x, h) ↦
            let found : any (λ k. k == j) order ≡ true = met (λ q. ground arith) in
            ground (arith, same, loop)
      ]

  loop_settings :
      (order : List K) (c : Cache K V) (oldest : ℕ)
      → let c' = (age_loop now order (c, oldest)).0 in
        (c'.min_age ≡ c.min_age) × (c'.prune_fn ≡ c.prune_fn)
  unfolding age_loop
  loop_settings [] c oldest = (refl, refl)
  loop_settings (key ∷ rest) c oldest =
      let (c', oldest') = age_step now key (c, oldest) in
      let (a, _, p) = step_settings key c oldest in
      let (a', p') = loop_settings rest c' oldest' in (a' ∙ a, p' ∙ p)

  settings-next_timer :
      (oldest : ℕ) (c : Cache K V)
      → ((next_timer now oldest c).min_age ≡ c.min_age)
        × ((next_timer now oldest c).prune_fn ≡ c.prune_fn)
  unfolding next_timer
  settings-next_timer oldest c = ground arith

  -- An entry that is used within the age stays, and so do the settings.
  pub prune_age-young :
      (order : List K) (c : Cache K V) (j : K) (x : Entry V)
      → GoMap.lookup j c.entries ≡ some x
      → (c.min_age ≢ 0 → now ≤ x.used + c.min_age)
      → (GoMap.lookup j (prune_age now order c).entries ≡ some x)
        × (((prune_age now order c).min_age ≡ c.min_age)
            × ((prune_age now order c).prune_fn ≡ c.prune_fn))
  unfolding prune_age aged
  prune_age-young order c j x h k = elim (Bool-cases (nat_eqb c.min_age 0)) [
    | inl q ↦ rw (q, prune_age) (h, (refl, refl))
    | inr q ↦
        let (c', oldest) = age_loop now order (c, now) in
        let entries = entries-next_timer oldest c' in
        let loop = loop_lookup order c now j in
        let (a, p) = settings-next_timer oldest c' in
        let (a', p') = loop_settings order c now in
        let young : aged c j (some x) ≡ some x = ground (arith, k (λ z. ground arith)) in
        rw (q, prune_age) (ground (arith, entries, loop, young, h), (a ∙ a', p ∙ p'))
  ]
