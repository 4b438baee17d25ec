-- ===== src/Config/Tests.antt =====
-- The defaults and the texts of the stores at small inputs.
use olareg.Shared.{none, some, true, false, ◌≡◌, refl, []}
use olareg.Shared.Int.{pos, negsuc}
use olareg.Config.{
  dir, Config, bool_default, int_default, positive_default, manifest_limit_default, api_defaults,
  gc_defaults, root_default, storage_defaults, set_defaults, marshal_text, unmarshal_text,
}

program : Unit {0}
unfolding bool_default int_default positive_default api_defaults gc_defaults root_default
    storage_defaults set_defaults marshal_text unmarshal_text
program = tt

-- Deletes are allowed, a grace period is off, and the rest is left to the defaults.
abbrev pub plain : Config
plain = record {
  storage = record {
    store_type = dir;
    root_dir = "";
    read_only = none;
    gc = record {
      frequency = pos 0;
      grace_period = negsuc 0;
      repo_upload_max = pos 0;
      untagged = some true;
      empty_repo = none;
      referrers_dangling = none;
      referrers_with_subj = none;
    };
  };
  api = record {
    push_enabled = none;
    delete_enabled = some true;
    manifest = record { limit = negsuc 4; sparse_image = none; sparse_index = none };
    blob = record { delete_enabled = none };
    referrer = record {
      enabled = some false;
      page_cache_expire = pos 0;
      page_cache_limit = pos 3;
      limit = pos 0;
    };
    warnings = [];
    rate_limit = pos 0;
  };
}

runs :
    ((set_defaults plain).storage.root_dir ≡ ".")
    × ((set_defaults plain).storage.gc.grace_period ≡ negsuc 0)
    × ((set_defaults plain).api.delete_enabled ≡ some true)
    × ((set_defaults plain).api.manifest.limit ≡ pos manifest_limit_default)
unfolding program
runs = (refl, refl, refl, refl)
