-- ===== src/Config.antt =====
-- config/config.go: the settings of the registry, their defaults, and the names of the stores. A
-- `*bool` is an `Option Bool`. The HTTP, log and auth settings, which `SetDefaults` does not touch,
-- are left out.
pub mod Defaults
pub mod Tests
use olareg.Shared.{
  ℕ, suc, ◌*◌, String, List, Option, none, some, Bool, true, false, ◌==◌, string_comparable,
  if◌then◌else◌,
}
use olareg.Shared.Int.{ℤ, pos, is_zero, is_positive}
use olareg.Types.Error.{Result, ok, err, other}

pub data Store : Type 0 where
  undef mem dir shared : Store

-- Durations are in nanoseconds.
abbrev pub second : ℕ
second = 1000000000

abbrev pub minute : ℕ
minute = 60 * second

abbrev pub hour : ℕ
hour = 60 * minute

abbrev pub manifest_limit_default : ℕ
manifest_limit_default = 1024 * 1024 * 8

abbrev pub referrer_cache_expire_default : ℕ
referrer_cache_expire_default = 5 * minute

abbrev pub referrer_cache_limit_default : ℕ
referrer_cache_limit_default = 1000

abbrev pub referrers_limit_default : ℕ
referrers_limit_default = 1024 * 1024 * 4

abbrev pub repo_upload_max_default : ℕ
repo_upload_max_default = 1000

pub record ConfigGc : Type 0 where
  pub frequency : ℤ
  pub grace_period : ℤ
  pub repo_upload_max : ℤ
  pub untagged : Option Bool
  pub empty_repo : Option Bool
  pub referrers_dangling : Option Bool
  pub referrers_with_subj : Option Bool

pub record ConfigStorage : Type 0 where
  pub store_type : Store
  pub root_dir : String
  pub read_only : Option Bool
  pub gc : ConfigGc

pub record ConfigApiManifest : Type 0 where
  pub limit : ℤ
  pub sparse_image : Option Bool
  pub sparse_index : Option Bool

pub record ConfigApiBlob : Type 0 where
  pub delete_enabled : Option Bool

pub record ConfigApiReferrer : Type 0 where
  pub enabled : Option Bool
  pub page_cache_expire : ℤ
  pub page_cache_limit : ℤ
  pub limit : ℤ

pub record ConfigApi : Type 0 where
  pub push_enabled : Option Bool
  pub delete_enabled : Option Bool
  pub manifest : ConfigApiManifest
  pub blob : ConfigApiBlob
  pub referrer : ConfigApiReferrer
  pub warnings : List String
  pub rate_limit : ℤ

pub record Config : Type 0 where
  pub storage : ConfigStorage
  pub api : ConfigApi

unfoldable pub bool_default : Option Bool → Bool → Option Bool
bool_default (some b) def = some b
bool_default none def = some def

-- `if z == 0 { z = def }`
unfoldable pub int_default : ℤ → ℕ → ℤ
int_default z def = if is_zero z then pos def else z

-- `if z <= 0 { z = def }`
unfoldable pub positive_default : ℤ → ℕ → ℤ
positive_default z def = if is_positive z then z else pos def

unfoldable pub api_defaults : ConfigApi → ConfigApi
unfolding bool_default int_default positive_default
api_defaults a = record a {
  delete_enabled = bool_default a.delete_enabled false;
  push_enabled = bool_default a.push_enabled true;
  blob = record { delete_enabled = bool_default a.blob.delete_enabled false };
  manifest = record {
    limit = positive_default a.manifest.limit manifest_limit_default;
    sparse_image = bool_default a.manifest.sparse_image false;
    sparse_index = bool_default a.manifest.sparse_index false;
  };
  referrer = record {
    enabled = bool_default a.referrer.enabled true;
    page_cache_expire = int_default a.referrer.page_cache_expire referrer_cache_expire_default;
    page_cache_limit = int_default a.referrer.page_cache_limit referrer_cache_limit_default;
    limit = int_default a.referrer.limit referrers_limit_default;
  };
}

unfoldable pub gc_defaults : ConfigGc → ConfigGc
unfolding bool_default int_default
gc_defaults g = record {
  frequency = int_default g.frequency (15 * minute);
  grace_period = int_default g.grace_period hour;
  repo_upload_max = int_default g.repo_upload_max repo_upload_max_default;
  untagged = bool_default g.untagged false;
  empty_repo = bool_default g.empty_repo true;
  referrers_dangling = bool_default g.referrers_dangling false;
  referrers_with_subj = bool_default g.referrers_with_subj true;
}

-- `case StoreDir: if RootDir == "" { RootDir = "." }`
unfoldable pub root_default : Store → String → String
root_default dir root = if root == "" then "." else root
root_default _ root = root

unfoldable pub storage_defaults : ConfigStorage → ConfigStorage
unfolding bool_default root_default gc_defaults
storage_defaults s = record {
  store_type = s.store_type;
  root_dir = root_default s.store_type s.root_dir;
  read_only = bool_default s.read_only false;
  gc = gc_defaults s.gc;
}

unfoldable pub set_defaults : Config → Config
unfolding api_defaults storage_defaults
set_defaults c = record { storage = storage_defaults c.storage; api = api_defaults c.api }

unfoldable pub marshal_text : Store → Result String
marshal_text mem = ok "mem"
marshal_text dir = ok "dir"
marshal_text shared = ok "shared"
marshal_text undef = err (other "unknown store value")

-- `to_lower` is `strings.ToLower`.
unfoldable pub unmarshal_text : (String → String) → String → Result Store
unmarshal_text to_lower b =
    let s = to_lower b in
    if s == "mem"
    then ok mem
    else if s == "dir"
    then ok dir
    else if s == "shared"
    then ok shared
    else err (other "unknown store value")
