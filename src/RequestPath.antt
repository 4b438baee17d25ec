-- ===== src/RequestPath.antt =====
-- olareg.go: the elements of the path of a request, the names of repositories, and the match of a
-- path to a pattern.
use Prim.Native.String.{String, ◌++◌ as join}
use Prim.Native.Char.{code}
use olareg.Shared.{
  ℕ, suc, ◌+◌, ◌-◌, List, [], ◌∷◌, ◌++◌, Option, none, some, Bool, true, false, ◌&&◌, ◌||◌, not,
  ◌==◌, string_comparable, nat_eqb, leb, ltb, codes, if◌then◌else◌,
}
use olareg.Shared.Slices.{length, take, drop}

-- [a-z0-9]
abbrev pub is_alnum : ℕ → Bool
is_alnum c = leb b'a' c && leb c b'z' || leb b'0' c && leb c b'9'

-- Where a match of `rePath` stands: at the start of a part or after a separator that is complete,
-- within letters and digits, after one underscore, or after dashes.
pub data Place : Type 0 where
  start within underscore dashes : Place

abbrev pub next_place : Place → ℕ → Option Place
next_place start c = if is_alnum c then some within else none
next_place within c =
    if is_alnum c
    then some within
    else if nat_eqb c b'.' || nat_eqb c b'/'
    then some start
    else if nat_eqb c b'_'
    then some underscore
    else if nat_eqb c b'-'
    then some dashes
    else none
next_place underscore c =
    if is_alnum c then some within else if nat_eqb c b'_' then some start else none
next_place dashes c =
    if is_alnum c then some within else if nat_eqb c b'-' then some dashes else none

unfoldable pub match_path : Place → List ℕ → Bool
match_path within [] = true
match_path _ [] = false
match_path p (c ∷ cs) = elim (next_place p c) [ none ↦ false | some q ↦ match_path q cs ]

-- `rePath.MatchString`
unfoldable pub re_path : String → Bool
unfolding match_path
re_path s = match_path start (codes s)

-- `strings.Join(el, "/")`
unfoldable pub join_path : List String → String
join_path [] = ""
join_path (x ∷ []) = x
join_path (x ∷ y ∷ el) = join x (join "/" (join_path (y ∷ el)))

-- The elements between the slashes; the first argument is what the current one has so far.
unfoldable pub split_slash : String → String → List String
split_slash cur String.[] = cur ∷ []
split_slash cur (String.◌∷◌ c s) =
    if nat_eqb (code c) b'/'
    then cur ∷ split_slash "" s
    else split_slash (join cur (String.◌∷◌ c String.[])) s

-- `path.Clean` of a rooted path, by its elements; the kept ones are reversed.
unfoldable pub clean : List String → List String → List String
clean kept [] = kept
clean kept (x ∷ el) =
    if x == "" || x == "."
    then clean kept el
    else if x == ".."
    then clean (drop 1 kept) el
    else clean (x ∷ kept) el

unfoldable pub reverse_onto : List String → List String → List String
reverse_onto acc [] = acc
reverse_onto acc (x ∷ xs) = reverse_onto (x ∷ acc) xs

-- `strings.Split` of an empty text is one empty text.
abbrev pub or_root : List String → List String
or_root [] = "" ∷ []
or_root (x ∷ el) = x ∷ el

unfoldable pub path_el : String → List String
path_el p = or_root (reverse_onto [] (clean [] (split_slash "" p)))

-- A parameter of `matchV2`: "...", "*", or a text.
pub data Pattern : Type 0 where
  repo_value one : Pattern
  literal : String → Pattern

-- The loop of `matchV2` on the elements from `i` on, with `repoStr` and the matches so far. As the
-- path is long enough, an element is never missing.
unfoldable pub match_loop :
    List Pattern → List String → String → List String → Option (String × List String)
match_loop [] [] repo matches = some (repo, matches)
match_loop [] (x ∷ el) repo matches = none
match_loop (repo_value ∷ ps) el repo matches =
    let n = length el - length ps in
    match_loop ps (drop n el) (join_path (take n el)) (matches ++ join_path (take n el) ∷ [])
match_loop (one ∷ ps) [] repo matches = none
match_loop (one ∷ ps) (x ∷ el) repo matches = match_loop ps el repo (matches ++ x ∷ [])
match_loop (literal p ∷ ps) [] repo matches = none
match_loop (literal p ∷ ps) (x ∷ el) repo matches =
    let more = match_loop ps el repo matches in if x == p then more else none

-- `matchV2`; a path has an element.
unfoldable pub match_v2 : List String → List Pattern → Option (List String)
match_v2 [] params = none
match_v2 (v ∷ el) params =
    if not (v == "v2") || ltb (suc (length el)) (length params + 1)
    then none
    else (elim (match_loop params el "" []) [
      | none ↦ none
      | some (repo, matches) ↦ if not (repo == "") && not (re_path repo) then none else some matches
    ])
