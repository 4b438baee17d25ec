-- ===== src/Cache/Tests.antt =====
-- The theorems on the cache at small inputs.
use olareg.Shared.{
  ℕ, [], ◌∷◌, none, some, true, ◌≡◌, refl, arith, nat_comparable, ltb, if◌then◌else◌,
}
use olareg.Shared.GoMap
use olareg.Shared.Slices.{any, count_p, length}
use olareg.Types.Error.{other, not_found, ok, err}
use olareg.Cache.{
  Entry, Cache, new, prune_error, stop_timer, touch, entry_error, delete, delete_loop, delete_all,
  get, set, age_entry, age_step, age_loop, next_timer, prune_age, count_loop, prune_count,
}
use olareg.Cache.Access.{read}
use olareg.Cache.Prune
use olareg.Cache.Prune.{aged}
use olareg.Cache.Count
use olareg.Cache.Count.{SortedKeys, OldestFirst, used_at}

program : Unit {0}
unfolding GoMap.lookup GoMap.put GoMap.delete any count_p new prune_error stop_timer touch
    entry_error delete delete_loop delete_all get set age_entry age_step age_loop next_timer
    prune_age count_loop prune_count aged
program = tt

abbrev item : ℕ → ℕ → Entry ℕ
item t v = record { used = t; value = v }

-- Three uploads; two may stay, for four ticks.
abbrev three : Cache ℕ ℕ
three = record {
  min_age = 4;
  max_age = 5;
  min_count = 2;
  max_count = 3;
  timer = none;
  entries = (1, item 5 10) ∷ (2, item 3 20) ∷ (3, item 9 30) ∷ [];
  prune_fn = none;
}

-- The same where pruning key 2 fails.
abbrev stuck : Cache ℕ ℕ
stuck = record three {
  prune_fn =
      some (λ k v. if ltb 1 k then (if ltb k 3 then some (other "busy") else none) else none);
}

runs :
    (read 1 (prune_age 8 (3 ∷ 2 ∷ 1 ∷ []) three) ≡ ok 10)
    × (read 2 (prune_age 8 (3 ∷ 2 ∷ 1 ∷ []) three) ≡ err not_found)
    × ((prune_age 8 (1 ∷ 2 ∷ 3 ∷ []) three).timer ≡ some 10)
    × ((set 9 4 40 three).1 ≡ true)
    × (length (prune_count 9 (2 ∷ 1 ∷ 3 ∷ []) three).entries ≡ 2)
    × ((delete_all (1 ∷ 2 ∷ 3 ∷ []) stuck).1 ≡ other "busy" ∷ [])
unfolding program
runs = (refl, refl, refl, refl, refl, refl)

lookup-prune_age_example :
    GoMap.lookup 2 (prune_age 8 (3 ∷ 2 ∷ 1 ∷ []) stuck).entries ≡ aged 8 stuck 2 (some (item 3 20))
unfolding program
lookup-prune_age_example =
    Prune.lookup-prune_age 8 (3 ∷ 2 ∷ 1 ∷ []) stuck 2 (omega arith) (λ _. refl)

sorted : SortedKeys three (2 ∷ 1 ∷ 3 ∷ [])
unfolding program OldestFirst used_at
sorted = record {
  once = λ k. ground arith;
  distinct = λ k. ground arith;
  all_keys = refl;
  by_age = (λ j h. ground arith, (λ j h. ground arith, (λ j h. ground arith, tt)));
}

length-prune_count_example : length (prune_count 9 (2 ∷ 1 ∷ 3 ∷ []) three).entries ≡ 2
unfolding program
length-prune_count_example =
    Count.length-prune_count 9 (2 ∷ 1 ∷ 3 ∷ []) three (λ k v. refl) sorted (omega arith)
