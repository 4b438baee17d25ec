-- ===== src/Types/Tag.antt =====
-- types/ref.go: `RefTagRE`, ^[a-zA-Z0-9_][a-zA-Z0-9._-]{0,127}$. A text is read by its code
-- points, as Go's `regexp` does.
use olareg.Shared.{
  ℕ, String, List, [], ◌∷◌, Bool, true, false, ◌&&◌, ◌||◌, leb, ◌==◌, codes, nat_comparable,
}
use olareg.Shared.Slices.{length}

-- [a-zA-Z0-9_]
is_tag_start : ℕ → Bool
is_tag_start c =
    leb b'a' c && leb c b'z' || leb b'A' c && leb c b'Z' || leb b'0' c && leb c b'9' || c == b'_'

-- [a-zA-Z0-9._-]
is_tag_char : ℕ → Bool
unfolding is_tag_start
is_tag_char c = is_tag_start c || c == b'.' || c == b'-'

all_tag_chars : List ℕ → Bool
unfolding is_tag_char
all_tag_chars [] = true
all_tag_chars (c ∷ cs) = is_tag_char c && all_tag_chars cs

match_codes : List ℕ → Bool
unfolding is_tag_start all_tag_chars
match_codes [] = false
match_codes (c ∷ cs) = is_tag_start c && leb (length cs) 127 && all_tag_chars cs

-- `RefTagRE.MatchString`
unfoldable pub ref_tag_re : String → Bool
unfolding match_codes
ref_tag_re s = match_codes (codes s)
