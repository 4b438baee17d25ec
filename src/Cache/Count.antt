-- ===== src/Cache/Count.antt =====
-- What `pruneCount` leaves (internal/cache/cache.go), where `pruneFn` does not fail.
use olareg.Shared.{
  ℕ, zero, suc, ◌+◌, ◌-◌, ◌≤◌, ◌<◌, List, [], ◌∷◌, none, some, Bool, true, false, ◌||◌, ◌≡◌, ◌≢◌,
  ◌↔◌, refl, sym, ap, subst, Comparable, ◌==◌, ==_iff, ==_self, arith, Bool-cases, Option-cases,
  inl, inr, if◌then◌else◌, ltb, leb, nat_eqb,
}
use olareg.Shared.GoMap
use olareg.Shared.GoMap.{GoMap, lookup-delete}
use olareg.Shared.Slices.{any, count_p, length}
use olareg.Cache.{
  Entry, Cache, Opts, new, prune_error, drop_entry, entry_error, count_loop, prune_count,
}

ne_zero : (n : ℕ) → n ≢ 0 → nat_eqb n 0 ≡ false
ne_zero n h = ground arith

module _ {K W : Type 0} ⦃e : Comparable K⦄ where
  abbrev pub has_key : K → K × W → Bool
  has_key k b = b.0 == k

  length-delete :
      (key : K) (m : GoMap K W) → length (GoMap.delete key m) + count_p (has_key key) m ≡ length m
  unfolding GoMap.delete count_p
  length-delete key [] = refl
  length-delete key ((k, v) ∷ m) = ground (arith, length-delete key m)

  count-delete :
      (key k : K) (m : GoMap K W)
      → count_p (has_key k) (GoMap.delete key m) ≡ (if key == k then 0 else count_p (has_key k) m)
  unfolding GoMap.delete count_p
  count-delete key k [] = ground arith
  count-delete key k ((j, v) ∷ m) =
      ground (arith, count-delete key k m, ==_iff j key, ==_iff j k, ==_iff key k)

  lookup-count :
      (k : K) (m : GoMap K W) {w : W} → GoMap.lookup k m ≡ some w → 0 < count_p (has_key k) m
  unfolding GoMap.lookup count_p
  lookup-count k [] h = ground arith
  lookup-count k ((j, v) ∷ m) {w = w} h = ground (arith, lookup-count k m {w = w})

module _ {K : Type 0} ⦃e : Comparable K⦄ where
  abbrev pub is_key : K → K → Bool
  is_key k j = j == k

  abbrev among : K → ℕ → List K → Bool
  among j zero ks = false
  among j (suc n) [] = false
  among j (suc n) (k ∷ ks) = k == j || among j n ks

  count-any : (j : K) (ks : List K) → 0 < count_p (is_key j) ks → any (is_key j) ks ≡ true
  unfolding any count_p
  count-any j [] h = absurd (omega arith)
  count-any j (k ∷ ks) h = ground (arith, count-any j ks)

module _ {K V : Type 0} ⦃e : Comparable K⦄ where
  abbrev pub Succeeds : Cache K V → Type 0
  Succeeds c = (key : K) (v : V) → prune_error c key v ≡ none

  no_error : (key : K) (c : Cache K V) → Succeeds c → entry_error key c ≡ none
  unfolding entry_error
  no_error key c good = elim (Option-cases (GoMap.lookup key c.entries)) [
    | inl h ↦ rw (h, entry_error) refl
    | inr (x, h) ↦ rw (h, entry_error) (good key x.value)
  ]

  drop-Succeeds : (key : K) (c : Cache K V) → Succeeds c → Succeeds (drop_entry key c)
  unfolding prune_error
  drop-Succeeds key c good = good

  last_step :
      (now : ℕ) (key : K) (rest : List K) (c : Cache K V)
      → Succeeds c
      → count_loop now (key ∷ rest) 1 c ≡ drop_entry key c
  unfolding count_loop
  last_step now key rest c good = rw (no_error key c good, count_loop) refl

  next_step :
      (now : ℕ) (key : K) (rest : List K) (n : ℕ) (c : Cache K V)
      → Succeeds c
      → count_loop now (key ∷ rest) (suc (suc n)) c ≡ count_loop now rest (suc n) (drop_entry key c)
  unfolding count_loop
  next_step now key rest n c good =
      let less : suc (suc n) - 1 ≡ suc n = omega arith in
      rw (no_error key c good, count_loop) (rw less (rw (ne_zero (suc n) (omega arith)) refl))

  -- The loop deletes the first `n` keys.
  loop_lookup :
      (now : ℕ) (ks : List K) (n : ℕ) (c : Cache K V) (j : K)
      → Succeeds c
      → GoMap.lookup j (count_loop now ks (suc n) c).entries
        ≡ (if among j (suc n) ks then none else GoMap.lookup j c.entries)
  unfolding count_loop
  loop_lookup now [] n c j good = refl
  loop_lookup now (key ∷ rest) zero c j good =
      rw (last_step now key rest c good) (ground (arith, lookup-delete key j c.entries))
  loop_lookup now (key ∷ rest) (suc n) c j good = rw (next_step now key rest n c good) (
      ground (
        arith,
        lookup-delete key j c.entries,
        loop_lookup now rest n (drop_entry key c) j (drop-Succeeds key c good),
      ))

  loop_length :
      (now : ℕ) (ks : List K) (n : ℕ) (c : Cache K V)
      → Succeeds c
      → suc n ≤ length ks
      → ((k : K) → count_p (is_key k) ks ≤ count_p (has_key k) c.entries)
      → ((k : K) → count_p (has_key k) c.entries ≤ 1)
      → length (count_loop now ks (suc n) c).entries + suc n ≡ length c.entries
  unfolding count_p
  loop_length now [] n c good h has one = absurd (omega arith)
  loop_length now (key ∷ rest) zero c good h has one =
      rw (last_step now key rest c good)
        (ground (arith, length-delete key c.entries, has key, one key, ==_self key))
  loop_length now (key ∷ rest) (suc n) c good h has one =
      let c' = drop_entry key c in
      let has' : (k : K) → count_p (is_key k) rest ≤ count_p (has_key k) c'.entries =
        λ k. ground (arith, has k, one k, count-delete key k c.entries, ==_iff key k) in
      let one' : (k : K) → count_p (has_key k) c'.entries ≤ 1 =
        λ k. ground (arith, one k, count-delete key k c.entries) in
      let rest_ok = loop_length now rest n c' (drop-Succeeds key c good) (omega arith) has' one' in
      rw (next_step now key rest n c good)
        (ground (arith, rest_ok, length-delete key c.entries, has key, one key, ==_self key))

  unfoldable pub used_at : K → Cache K V → ℕ
  used_at k c = elim (GoMap.lookup k c.entries) [ none ↦ 0 | some x ↦ x.used ]

  -- From the least recently used key on.
  unfoldable pub OldestFirst : Cache K V → List K → Type 0
  OldestFirst c [] = Unit
  OldestFirst c (k ∷ ks) =
      ((j : K) → any (is_key j) ks ≡ true → used_at k c ≤ used_at j c) × OldestFirst c ks

  -- What `sort.Sort` makes of the keys of the map: each key once, by the time of the last use.
  pub record SortedKeys (c : Cache K V) (sorted : List K) : Type 0 where
    pub once : (k : K) → count_p (is_key k) sorted ≡ count_p (has_key k) c.entries
    pub distinct : (k : K) → count_p (has_key k) c.entries ≤ 1
    pub all_keys : length sorted ≡ length c.entries
    pub by_age : OldestFirst c sorted

  -- Where there is a limit and `pruneFn` does not fail, `pruneCount` leaves a cache that is over
  -- the lower limit at exactly that limit, and any other as it is.
  pub length-prune_count :
      (now : ℕ) (sorted : List K) (c : Cache K V)
      → Succeeds c
      → SortedKeys c sorted
      → c.min_count ≢ 0
      → length (prune_count now sorted c).entries
        ≡ (if ltb c.min_count (length c.entries) then c.min_count else length c.entries)
  unfolding prune_count
  length-prune_count now sorted c good s limited =
      elim (Bool-cases (ltb c.min_count (length c.entries))) [
        | inr t ↦ ground arith
        | inl t ↦
            let n = length sorted - c.min_count - 1 in
            let eq : length sorted - c.min_count ≡ suc n = ground (arith, s.all_keys) in
            let done : length (count_loop now sorted (suc n) c).entries + suc n ≡ length c.entries =
              loop_length now sorted n c good (ground (arith, s.all_keys))
                (λ k. omega (arith, s.once k)) s.distinct in
            let done' : length (count_loop now sorted (length sorted - c.min_count) c).entries
                  + suc n
                ≡ length c.entries =
              subst (λ m. length (count_loop now sorted m c).entries + suc n ≡ length c.entries)
                (sym eq) done in
            ground (arith, done', eq, s.all_keys)
      ]

  older :
      (c : Cache K V) (ks : List K) (n : ℕ) (j k : K)
      → OldestFirst c ks
      → among j n ks ≡ true
      → among k n ks ≡ false
      → any (is_key k) ks ≡ true
      → used_at j c ≤ used_at k c
  unfolding OldestFirst any
  older c ks zero j k o a b h = ground arith
  older c [] (suc n) j k o a b h = ground arith
  older c (x ∷ ks) (suc n) j k o a b h = ground (arith, older c ks n j k o.1, o.0 k, ==_iff x j)

  -- Where `pruneFn` does not fail, what `pruneCount` deletes was last used no later than anything
  -- that it keeps.
  pub prune_count-oldest :
      (now : ℕ) (sorted : List K) (c : Cache K V) (j k : K) {x y : Entry V}
      → Succeeds c
      → SortedKeys c sorted
      → GoMap.lookup j c.entries ≡ some x
      → GoMap.lookup j (prune_count now sorted c).entries ≡ none
      → GoMap.lookup k (prune_count now sorted c).entries ≡ some y
      → x.used ≤ y.used
  unfolding prune_count used_at
  prune_count-oldest now sorted c j k {x} {y} good s was gone left =
      elim (Bool-cases (nat_eqb c.min_count 0 || leb (length c.entries) c.min_count)) [
        | inl t ↦ absurd (ground arith)
        | inr t ↦
            let n = length sorted - c.min_count - 1 in
            let eq : length sorted - c.min_count ≡ suc n = ground (arith, s.all_keys) in
            let at = λ (i : K). loop_lookup now sorted n c i good in
            let same : prune_count now sorted c ≡ count_loop now sorted (suc n) c =
              rw (t, prune_count) (ap (λ m. count_loop now sorted m c) eq) in
            let gone' : GoMap.lookup j (count_loop now sorted (suc n) c).entries ≡ none =
              rw same at gone in
            let left' : GoMap.lookup k (count_loop now sorted (suc n) c).entries ≡ some y =
              rw same at left in
            let k_had : GoMap.lookup k c.entries ≡ some y = ground (arith, at k) in
            let in_order : any (is_key k) sorted ≡ true =
              count-any k sorted (omega (arith, s.once k, lookup-count k c.entries k_had)) in
            ground (arith, at j, at k, older c sorted (suc n) j k s.by_age)
      ]

-- The lower limit of a new cache, to which `pruneCount` prunes, is positive exactly when the count
-- is at least two, and it is below the count then; at a count of one `pruneCount` leaves the cache
-- as it is, however many entries it has.
pub min_count-new :
    {K V : Type 0} ⦃e : Comparable K⦄ (opt : Opts K V) (now : ℕ) (sorted : List K) (c : Cache K V)
    → c.min_count ≡ (new opt).min_count
    → ((0 < c.min_count) ↔ (1 < opt.count))
      × (1 < opt.count → c.min_count < opt.count)
      × (opt.count ≡ 1 → prune_count now sorted c ≡ c)
unfolding new prune_count
min_count-new opt now sorted c h =
    ((λ p. ground arith, λ p. ground arith), λ p. ground arith, λ p. ground arith)
