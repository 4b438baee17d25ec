-- ===== src/Shared/Numerals.antt =====
-- `strconv.ParseInt(s, 10, 64)` and `strconv.Atoi`, the same on 64 bits; `none` for their errors.
use Prim.Native.Nat.{ℕ, zero, suc, ◌+◌, ◌-◌, ◌*◌, ◌^◌}
use Prim.Native.String.{String}
use mathlib.Core.Bool.{Bool, ◌&&◌}
use mathlib.Core.Option.{Option, none, some}
use mathlib.Core.List.{List, [], ◌∷◌}
use olareg.Shared.Tests.{if◌then◌else◌, nat_eqb, leb, ltb, codes}
use olareg.Shared.Int.{ℤ, pos, negsuc}

abbrev pub is_digit : ℕ → Bool
is_digit c = leb b'0' c && leb c b'9'

-- The number that the digits continue.
unfoldable pub digits : ℕ → List ℕ → Option ℕ
digits n [] = some n
digits n (c ∷ cs) = let more = digits (10 * n + (c - b'0')) cs in if is_digit c then more else none

unfoldable pub natural : List ℕ → Option ℕ
natural [] = none
natural (c ∷ cs) = digits 0 (c ∷ cs)

abbrev pub below : ℕ → Option ℕ → Option ℕ
below limit none = none
below limit (some n) = if ltb n limit then some n else none

abbrev pub negate : Option ℕ → Option ℤ
negate none = none
negate (some zero) = some (pos 0)
negate (some (suc n)) = some (negsuc n)

abbrev pub positive : Option ℕ → Option ℤ
positive none = none
positive (some n) = some (pos n)

-- A sign may stand in front; a number that has no 64 bits is an error.
unfoldable pub parse_codes : List ℕ → Option ℤ
unfolding digits natural
parse_codes [] = none
parse_codes (c ∷ cs) =
    if nat_eqb c b'-'
    then negate (below (2 ^ 63 + 1) (natural cs))
    else if nat_eqb c b'+'
    then positive (below (2 ^ 63) (natural cs))
    else positive (below (2 ^ 63) (natural (c ∷ cs)))

unfoldable pub parse_int : String → Option ℤ
unfolding parse_codes
parse_int s = parse_codes (codes s)

-- `page, _ := strconv.Atoi(s)`, with 0 for what is below it: an error of the syntax gives 0, and one of
-- the range the largest number of 64 bits.
abbrev pub page_value : Option ℕ → ℕ
page_value none = 0
page_value (some n) = if ltb n (2 ^ 63) then n else 2 ^ 63 - 1

unfoldable pub page_codes : List ℕ → ℕ
unfolding digits natural
page_codes [] = 0
page_codes (c ∷ cs) =
    if nat_eqb c b'-'
    then 0
    else if nat_eqb c b'+'
    then page_value (natural cs)
    else page_value (natural (c ∷ cs))

unfoldable pub page_number : String → ℕ
unfolding page_codes
page_number s = page_codes (codes s)
