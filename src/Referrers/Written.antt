-- ===== src/Referrers/Written.antt =====
-- What package json makes of a list of referrers that is written and read again: the fields of
-- types/descriptor.go and types/platform.go with `omitempty` do not keep an empty value, and a map
-- may be read in another order (referrer.go).
use mathlib.Core.Option
use olareg.Shared.{
  ℕ, zero, suc, refl, String, List, [], ◌∷◌, ◌++◌, Option, none, some, Bool, true, false, ◌&&◌, not,
  ◌≡◌, Comparable, arith, map, string_comparable, Option-cases, inl, inr,
}
use olareg.Shared.GoMap
use olareg.Shared.Slices.{find?, index_func, delete_func, set}
use olareg.Types.Error.{ok}
use olareg.Types.Digest.{Bytes, DigestLib}
use olareg.Types.Descriptor.{Descriptor, Platform, Annotations, Index}
use olareg.Types.Json.{Json}
use olareg.Types.Layout.{has_digest}
use olareg.Referrers.{empty_response, replace_or_append}

-- A value with `omitempty`.
abbrev pub omit_empty : {T : Type 0} → Option (List T) → Option (List T)
omit_empty none = none
omit_empty (some []) = none
omit_empty (some (x ∷ xs)) = some (x ∷ xs)

abbrev pub without_empty_features : Platform → Platform
without_empty_features p = record p {
  os_features = omit_empty p.os_features;
  features = omit_empty p.features;
}

module _ {D : Type 0} where
  -- A descriptor that was written and read again, where `order` is how a map is then ordered.
  abbrev pub as_written : (Annotations → Annotations) → Descriptor D → Descriptor D
  as_written order d = record d {
    urls = omit_empty d.urls;
    annotations = Option.map order (omit_empty d.annotations);
    embedded = omit_empty d.embedded;
    platform = Option.map without_empty_features d.platform;
  }

  unfoldable pub all_named : DigestLib D → List (Descriptor D) → Bool
  all_named lib [] = true
  all_named lib (d ∷ ds) = not (lib.is_zero d.digest) && all_named lib ds

  unfoldable pub named_subject : DigestLib D → Option (Descriptor D) → Bool
  named_subject lib none = true
  named_subject lib (some d) = not (lib.is_zero d.digest)

  -- No digest of an index is zero: the text of a zero digest cannot be read.
  abbrev pub is_readable : DigestLib D → Index D → Bool
  is_readable lib i = all_named lib i.manifests && named_subject lib i.subject

-- The entries of an index that is written are read back, as they were written, into an empty
-- response; and where Unmarshal reads an index, a Decoder reads the same entries and the same
-- subject into an empty response.
pub record ReadsBack {D : Type 0} (lib : DigestLib D) (json : Json D) : Type 0 where
  pub order : Annotations → Annotations
  pub same : (key : String) (m : Annotations) → GoMap.lookup key (order m) ≡ GoMap.lookup key m
  pub written :
      (i : Index D) (bs : Bytes)
      → is_readable lib i ≡ true
      → json.encode_index i ≡ ok bs
      → (json.fill_index bs empty_response).manifests ≡ map (as_written order) i.manifests
  pub entries :
      (bs : Bytes) (i : Index D)
      → json.decode_index bs ≡ ok i
      → (json.fill_index bs empty_response).manifests ≡ i.manifests
  pub subject :
      (bs : Bytes) (i : Index D)
      → json.decode_index bs ≡ ok i
      → (json.fill_index bs empty_response).subject ≡ i.subject

find?-map :
    {T : Type 0} (p : T → Bool) (f : T → T) (xs : List T) (x : T)
    → ((y : T) → p (f y) ≡ p y)
    → find? p xs ≡ some x
    → find? p (map f xs) ≡ some (f x)
unfolding find?
find?-map p f [] x same h = ground arith
find?-map p f (y ∷ xs) x same h = ground (arith, same y, find?-map p f xs x same)

module _ {D : Type 0} ⦃e : Comparable D⦄ where
  all_named-set :
      (lib : DigestLib D) (ds : List (Descriptor D)) (n : ℕ) (d : Descriptor D)
      → all_named lib ds ≡ true
      → lib.is_zero d.digest ≡ false
      → all_named lib (set ds n d) ≡ true
  unfolding all_named set
  all_named-set lib [] n d h z = refl
  all_named-set lib (x ∷ ds) zero d h z = ground arith
  all_named-set lib (x ∷ ds) (suc n) d h z = ground (arith, all_named-set lib ds n d)

  all_named-snoc :
      (lib : DigestLib D) (ds : List (Descriptor D)) (d : Descriptor D)
      → all_named lib ds ≡ true
      → lib.is_zero d.digest ≡ false
      → all_named lib (ds ++ d ∷ []) ≡ true
  unfolding all_named
  all_named-snoc lib [] d h z = ground arith
  all_named-snoc lib (x ∷ ds) d h z = ground (arith, all_named-snoc lib ds d)

  pub all_named-replace_or_append :
      (lib : DigestLib D) (d : Descriptor D) (ds : List (Descriptor D))
      → all_named lib ds ≡ true
      → lib.is_zero d.digest ≡ false
      → all_named lib (replace_or_append d ds) ≡ true
  unfolding replace_or_append
  all_named-replace_or_append lib d ds h z =
      elim (Option-cases (index_func (has_digest d.digest) ds)) [
        | inl q ↦ rw (q, replace_or_append) (all_named-snoc lib ds d h z)
        | inr (n, q) ↦ rw (q, replace_or_append) (all_named-set lib ds n d h z)
      ]

  pub all_named-delete_func :
      (lib : DigestLib D) (p : Descriptor D → Bool) (ds : List (Descriptor D))
      → all_named lib ds ≡ true
      → all_named lib (delete_func p ds) ≡ true
  unfolding all_named delete_func
  all_named-delete_func lib p [] h = refl
  all_named-delete_func lib p (d ∷ ds) h = ground (arith, all_named-delete_func lib p ds)

  pub find?-as_written :
      (order : Annotations → Annotations) (j : D) (ds : List (Descriptor D)) (d : Descriptor D)
      → find? (has_digest j) ds ≡ some d
      → find? (has_digest j) (map (as_written order) ds) ≡ some (as_written order d)
  find?-as_written order j ds d h = find?-map (has_digest j) (as_written order) ds d (λ x. refl) h
