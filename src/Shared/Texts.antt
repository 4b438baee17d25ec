-- ===== src/Shared/Texts.antt =====
-- The order of texts by their bytes, as `strings.Compare` has it.
use Prim.Native.Char.{Char, code}
use Prim.Native.Nat.{Ordering, compare as compare_ℕ}
use Prim.Native.String.{String, compare, then}
use Prim.Native.String.compare
use mathlib.Core.Path.{◌≡◌}
use mathlib.Core.Bool.{Bool, true, false}
use native.Mathlib.Omega.{arith}
use text.Mathlib.TextEquality.{path_by_compare}
use text.Mathlib.TextPositions.{compare_refl}

-- `strings.Compare(s, t) < 0`
abbrev pub lt_text : String → String → Bool
lt_text s t = elim (compare s t) [ Ordering.lt ↦ true | _ ↦ false ]

compare_cons :
    (c d : Char) (s t : String)
    → compare (String.◌∷◌ c s) (String.◌∷◌ d t) ≡ then (compare_ℕ (code c) (code d)) (compare s t)
compare_cons c d s t = compare.cons-cons c d s t

compare_nil : (d : Char) (t : String) → compare String.[] (String.◌∷◌ d t) ≡ Ordering.lt
compare_nil d t = compare.nil-cons d t

compare-cons_nil : (c : Char) (s : String) → compare (String.◌∷◌ c s) String.[] ≡ Ordering.gt
compare-cons_nil c s = compare.cons-nil c s

pub lt_text_trans : (s t u : String) → lt_text s t ≡ true → lt_text t u ≡ true → lt_text s u ≡ true
lt_text_trans String.[] String.[] String.[] h k = h
lt_text_trans String.[] (String.◌∷◌ d t) String.[] h k = ground (arith, compare-cons_nil d t)
lt_text_trans String.[] t (String.◌∷◌ e u) h k = ground (arith, compare_nil e u)
lt_text_trans (String.◌∷◌ c s) String.[] u h k = ground (arith, compare-cons_nil c s)
lt_text_trans (String.◌∷◌ c s) (String.◌∷◌ d t) String.[] h k = ground (arith, compare-cons_nil d t)
lt_text_trans (String.◌∷◌ c s) (String.◌∷◌ d t) (String.◌∷◌ e u) h k =
    ground
      (arith, compare_cons c d s t, compare_cons d e t u, compare_cons c e s u, lt_text_trans s t u)

pub lt_text_irrefl : (s : String) → lt_text s s ≡ false
lt_text_irrefl s = ground (arith, compare_refl s)

compare_eq : (s t : String) → lt_text s t ≡ false → lt_text t s ≡ false → compare s t ≡ Ordering.eq
compare_eq String.[] String.[] h k = compare_refl String.[]
compare_eq String.[] (String.◌∷◌ d t) h k = ground (arith, compare_nil d t)
compare_eq (String.◌∷◌ c s) String.[] h k = ground (arith, compare_nil c s)
compare_eq (String.◌∷◌ c s) (String.◌∷◌ d t) h k =
    ground (arith, compare_cons c d s t, compare_cons d c t s, compare_eq s t)

-- Texts of which neither stands before the other are equal.
pub lt_text_eq : (s t : String) → lt_text s t ≡ false → lt_text t s ≡ false → s ≡ t
lt_text_eq s t h k = path_by_compare s t (compare_eq s t h k)
