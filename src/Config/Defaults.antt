-- ===== src/Config/Defaults.antt =====
-- What `SetDefaults` guarantees, and the texts of a store type (config/config.go).
use olareg.Shared.{
  ℕ, ◌<◌, String, Option, none, Bool, true, false, ◌≡◌, ◌≢◌, refl, arith, ==_iff, string_comparable,
}
use olareg.Shared.Int.{ℤ, is_positive}
use olareg.Types.Error.{ok, err, other, ◌>>=◌}
use olareg.Config.{
  Store, undef, mem, dir, shared, Config, bool_default, int_default, positive_default,
  manifest_limit_default, root_default, set_defaults, marshal_text, unmarshal_text,
}

-- The settings that the program dereferences without a test.
pub record IsComplete (c : Config) : Type 0 where
  pub read_only : c.storage.read_only ≢ none
  pub untagged : c.storage.gc.untagged ≢ none
  pub empty_repo : c.storage.gc.empty_repo ≢ none
  pub referrers_dangling : c.storage.gc.referrers_dangling ≢ none
  pub referrers_with_subj : c.storage.gc.referrers_with_subj ≢ none
  pub push_enabled : c.api.push_enabled ≢ none
  pub delete_enabled : c.api.delete_enabled ≢ none
  pub sparse_image : c.api.manifest.sparse_image ≢ none
  pub sparse_index : c.api.manifest.sparse_index ≢ none
  pub blob_delete : c.api.blob.delete_enabled ≢ none
  pub referrer : c.api.referrer.enabled ≢ none
  pub manifest_limit : is_positive c.api.manifest.limit ≡ true

bool_default-ne-none : (o : Option Bool) (b : Bool) → bool_default o b ≢ none
unfolding bool_default
bool_default-ne-none o b = ground arith

positive_default-is_positive : (z : ℤ) (n : ℕ) → 0 < n → is_positive (positive_default z n) ≡ true
unfolding positive_default
positive_default-is_positive z n h = ground arith

-- After `SetDefaults` no optional flag is nil, and the limit on a manifest is positive.
pub set_defaults-IsComplete : (c : Config) → IsComplete (set_defaults c)
unfolding set_defaults
set_defaults-IsComplete c = record {
  read_only = bool_default-ne-none c.storage.read_only false;
  untagged = bool_default-ne-none c.storage.gc.untagged false;
  empty_repo = bool_default-ne-none c.storage.gc.empty_repo true;
  referrers_dangling = bool_default-ne-none c.storage.gc.referrers_dangling false;
  referrers_with_subj = bool_default-ne-none c.storage.gc.referrers_with_subj true;
  push_enabled = bool_default-ne-none c.api.push_enabled true;
  delete_enabled = bool_default-ne-none c.api.delete_enabled false;
  sparse_image = bool_default-ne-none c.api.manifest.sparse_image false;
  sparse_index = bool_default-ne-none c.api.manifest.sparse_index false;
  blob_delete = bool_default-ne-none c.api.blob.delete_enabled false;
  referrer = bool_default-ne-none c.api.referrer.enabled true;
  manifest_limit =
      positive_default-is_positive c.api.manifest.limit manifest_limit_default (omega arith);
}

bool_default_idem :
    (o : Option Bool) (b : Bool) → bool_default (bool_default o b) b ≡ bool_default o b
unfolding bool_default
bool_default_idem o b = ground arith

int_default_idem : (z : ℤ) (n : ℕ) → int_default (int_default z n) n ≡ int_default z n
unfolding int_default
int_default_idem z n = ground arith

root_default_idem : (s : Store) (r : String) → root_default s (root_default s r) ≡ root_default s r
unfolding root_default
root_default_idem dir r = ground (arith, ==_iff r "")
root_default_idem _ r = refl

positive_default_idem :
    (z : ℤ) (n : ℕ) → 0 < n → positive_default (positive_default z n) n ≡ positive_default z n
unfolding positive_default
positive_default_idem z n h = ground arith

limit_idem :
    (z : ℤ)
    → positive_default (positive_default z manifest_limit_default) manifest_limit_default
      ≡ positive_default z manifest_limit_default
limit_idem z = positive_default_idem z manifest_limit_default (omega arith)

-- Setting the defaults again changes nothing: what was set, or was defaulted, stays.
pub set_defaults_idem : (c : Config) → set_defaults (set_defaults c) ≡ set_defaults c
unfolding set_defaults
set_defaults_idem c = simp (bool_default_idem, int_default_idem, root_default_idem, limit_idem)

-- The text of a store type is read back as it, where lower case leaves the three names as they are;
-- the undefined type has no text.
pub unmarshal-marshal :
    (to_lower : String → String) (s : Store)
    → to_lower "mem" ≡ "mem"
    → to_lower "dir" ≡ "dir"
    → to_lower "shared" ≡ "shared"
    → (marshal_text s >>= unmarshal_text to_lower) ≡ (elim s [
      | undef ↦ err (other "unknown store value")
      | mem ↦ ok mem
      | dir ↦ ok dir
      | shared ↦ ok shared
    ])
unfolding marshal_text unmarshal_text
unmarshal-marshal to_lower undef a d e = refl
unmarshal-marshal to_lower mem a d e = rw (a) refl
unmarshal-marshal to_lower dir a d e = rw (d) refl
unmarshal-marshal to_lower shared a d e = rw (e) refl
