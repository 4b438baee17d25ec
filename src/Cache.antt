-- ===== src/Cache.antt =====
-- internal/cache/cache.go: values with limits on their age and number. A method takes the time of
-- its calls of `time.Now` and, where it ranges over the map, the order in which it meets the keys,
-- and returns the new cache. Durations and counts that are not positive disable a limit, and are 0
-- here. The timer is the moment at which it fires. `pruneFn` is a function from the key and value
-- to its error; the functions before and after it have no result and are left out. The methods of
-- one cache run one after the other, as its mutex has it.
pub mod Access
pub mod Prune
pub mod Count
mod Tests
use olareg.Shared.{
  ℕ, zero, suc, ◌+◌, ◌-◌, ◌*◌, ◌/◌, List, [], ◌∷◌, ◌++◌, Option, none, some, Bool, true, false,
  ◌&&◌, ◌||◌, Comparable, ltb, leb, nat_eqb, if◌then◌else◌,
}
use olareg.Shared.GoMap
use olareg.Shared.GoMap.{GoMap, keys}
use olareg.Shared.Slices.{length}
use olareg.Types.Error.{Error, not_found, other, Result, ok, err}

pub record Entry (V : Type 0) : Type 0 where
  pub used : ℕ
  pub value : V

pub record Cache (K V : Type 0) : Type 0 where
  pub min_age : ℕ
  pub max_age : ℕ
  pub min_count : ℕ
  pub max_count : ℕ
  pub timer : Option ℕ
  pub entries : GoMap K (Entry V)
  pub prune_fn : Option (K → V → Option Error)

pub record Opts (K V : Type 0) : Type 0 where
  pub age : ℕ
  pub count : ℕ
  pub prune_fn : Option (K → V → Option Error)

-- `time.Millisecond`, in nanoseconds
abbrev pub millisecond : ℕ
millisecond = 1000000

module _ {K V : Type 0} where
  -- `New`; `int(float64(n) * 0.9)` is the whole part of nine tenths for all n below 2 ^ 50.
  unfoldable pub new : Opts K V → Cache K V
  new opt = record {
    min_age = opt.age;
    max_age = opt.age + opt.age / 10;
    min_count = if ltb 0 opt.count then opt.count * 9 / 10 else 0;
    max_count = opt.count;
    timer = none;
    entries = [];
    prune_fn = opt.prune_fn;
  }

  -- The error of `pruneFn` on an entry, `none` where it succeeds or there is no such function.
  unfoldable pub prune_error : Cache K V → K → V → Option Error
  prune_error c key v = elim c.prune_fn [ none ↦ none | some f ↦ f key v ]

  abbrev pub is_nil : GoMap K (Entry V) → Bool
  is_nil [] = true
  is_nil (x ∷ m) = false

  -- `if len(c.entries) == 0 && c.timer != nil { … }`
  unfoldable pub stop_timer : Cache K V → Cache K V
  stop_timer c = if is_nil c.entries then record c { timer = none } else c

module _ {K V : Type 0} ⦃e : Comparable K⦄ where
  abbrev pub drop_entry : K → Cache K V → Cache K V
  drop_entry key c = record c { entries = GoMap.delete key c.entries }

  -- `c.entries[key].used = now`
  unfoldable pub touch : ℕ → K → Cache K V → Cache K V
  touch now key c = elim (GoMap.lookup key c.entries) [
    | none ↦ c
    | some x ↦ record c { entries = GoMap.put key (record x { used = now }) c.entries }
  ]

  -- What `pruneFn` says of the entry that a key has.
  unfoldable pub entry_error : K → Cache K V → Option Error
  entry_error key c = elim (GoMap.lookup key c.entries) [
    | none ↦ none
    | some x ↦ prune_error c key x.value
  ]

  unfoldable pub delete : K → Cache K V → Cache K V × Option Error
  delete key c = elim (entry_error key c) [
    | some x ↦ (c, some x)
    | none ↦ (stop_timer (drop_entry key c), none)
  ]

  -- The loop of `DeleteAll`, with the errors so far.
  unfoldable pub delete_loop : List K → Cache K V → List Error → Cache K V × List Error
  delete_loop [] c errs = (c, errs)
  delete_loop (key ∷ rest) c errs = elim (entry_error key c) [
    | some x ↦ delete_loop rest c (errs ++ x ∷ [])
    | none ↦ delete_loop rest (drop_entry key c) errs
  ]

  -- `errors.Join` of no error is none.
  unfoldable pub delete_all : List K → Cache K V → Cache K V × List Error
  delete_all order c = let (c', errs) = delete_loop order c [] in (stop_timer c', errs)

  unfoldable pub get : ℕ → K → Cache K V → Cache K V × Result V
  get now key c = elim (GoMap.lookup key c.entries) [
    | some x ↦ (touch now key c, ok x.value)
    | none ↦ (c, err not_found)
  ]

  unfoldable pub is_empty : Cache K V → Bool
  is_empty c = is_nil c.entries

  unfoldable pub list : Cache K V → List K
  list c = keys c.entries

  -- The entry is stored and the timer started; then `pruneCount` is started where this is true.
  unfoldable pub set : ℕ → K → V → Cache K V → Cache K V × Bool
  set now key val c =
      let entries = GoMap.put key (record { used = now; value = val }) c.entries in
      let timer : Option ℕ = elim c.timer [
        | some t ↦ some t
        | none ↦ if ltb 0 c.max_age then some (now + c.max_age) else none
      ] in
      (
        record c { entries = entries; timer = timer },
        ltb 0 c.max_count && ltb c.max_count (length entries),
      )

  -- `used.Before(cutoff)`
  abbrev pub expired : ℕ → Cache K V → Entry V → Bool
  expired now c x = ltb (x.used + c.min_age) now

  -- One round of the loop of `pruneAge`, at a key with its entry: the cache and the oldest time.
  unfoldable pub age_entry : ℕ → K → Entry V → Cache K V × ℕ → Cache K V × ℕ
  age_entry now key x (c, oldest) =
      if expired now c x
      then elim (prune_error c key x.value) [
        | some _ ↦ (touch now key c, oldest)
        | none ↦ (drop_entry key c, oldest)
      ]
      else (c, if ltb x.used oldest then x.used else oldest)

  unfoldable pub age_step : ℕ → K → Cache K V × ℕ → Cache K V × ℕ
  age_step now key (c, oldest) = elim (GoMap.lookup key c.entries) [
    | none ↦ (c, oldest)
    | some x ↦ age_entry now key x (c, oldest)
  ]

  unfoldable pub age_loop : ℕ → List K → Cache K V × ℕ → Cache K V × ℕ
  age_loop now [] s = s
  age_loop now (key ∷ rest) s = age_loop now rest (age_step now key s)

  -- The next timer: `maxAge` after the oldest entry, or a millisecond from now if that is past.
  unfoldable pub next_timer : ℕ → ℕ → Cache K V → Cache K V
  next_timer now oldest c = if is_nil c.entries then record c { timer = none } else record c {
    timer = some (if ltb now (oldest + c.max_age) then oldest + c.max_age else now + millisecond);
  }

  unfoldable pub prune_age : ℕ → List K → Cache K V → Cache K V
  prune_age now order c =
      let (c', oldest) = age_loop now order (c, now) in
      if nat_eqb c.min_age 0 then c else next_timer now oldest c'

  -- The loop of `pruneCount` over the keys by age: `n` entries are still to be deleted.
  unfoldable pub count_loop : ℕ → List K → ℕ → Cache K V → Cache K V
  count_loop now [] n c = c
  count_loop now (key ∷ rest) n c = elim (entry_error key c) [
    | some _ ↦ count_loop now rest n (touch now key c)
    | none ↦
        let more = count_loop now rest (n - 1) (drop_entry key c) in
        if nat_eqb (n - 1) 0 then drop_entry key c else more
  ]

  -- `sorted` is what `sort.Sort` makes of the keys by the time of their last use.
  unfoldable pub prune_count : ℕ → List K → Cache K V → Cache K V
  prune_count now sorted c =
      let size = length c.entries in
      let pruned = count_loop now sorted (length sorted - c.min_count) c in
      if nat_eqb c.min_count 0 || leb size c.min_count then c else pruned
