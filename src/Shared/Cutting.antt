-- ===== src/Shared/Cutting.antt =====
-- Texts cut at a character, in lower case, and without the space around them, as package `strings`
-- does it. Letters and spaces are those of ASCII, which the values of headers are made of.
use Prim.Native.Nat.{ℕ, ◌-◌}
use Prim.Native.Char.{Char, code}
use Prim.Native.String.{String, ◌++◌ as join, char_at}
use mathlib.Core.Bool.{Bool, ◌&&◌, ◌||◌}
use mathlib.Core.List.{List, [], ◌∷◌}
use olareg.Shared.Tests.{if◌then◌else◌, nat_eqb, leb, ◌==◌, string_comparable}

-- What stands before the first such character: the first result of `strings.Cut`.
unfoldable pub before : ℕ → String → String
before sep String.[] = String.[]
before sep (String.◌∷◌ c s) =
    let rest = before sep s in if nat_eqb (code c) sep then String.[] else String.◌∷◌ c rest

-- `strings.Split` at a character; `cur` is what the current part has so far.
unfoldable pub split : ℕ → String → String → List String
split sep cur String.[] = cur ∷ []
split sep cur (String.◌∷◌ c s) =
    if nat_eqb (code c) sep
    then cur ∷ split sep "" s
    else split sep (join cur (String.◌∷◌ c String.[])) s

unfoldable pub lower_char : Char → Char
lower_char c =
    if leb b'A' (code c) && leb (code c) b'Z'
    then char_at "abcdefghijklmnopqrstuvwxyz" (code c - b'A')
    else c

unfoldable pub to_lower : String → String
unfolding lower_char
to_lower String.[] = String.[]
to_lower (String.◌∷◌ c s) = String.◌∷◌ (lower_char c) (to_lower s)

abbrev pub is_space : Char → Bool
is_space c = nat_eqb (code c) 32 || leb 9 (code c) && leb (code c) 13

unfoldable pub trim_left : String → String
trim_left String.[] = String.[]
trim_left (String.◌∷◌ c s) = let rest = trim_left s in if is_space c then rest else String.◌∷◌ c s

unfoldable pub trim_right : String → String
trim_right String.[] = String.[]
trim_right (String.◌∷◌ c s) =
    let rest = trim_right s in if rest == "" && is_space c then String.[] else String.◌∷◌ c rest

-- `strings.TrimSpace`
unfoldable pub trim_space : String → String
unfolding trim_left trim_right
trim_space s = trim_right (trim_left s)
