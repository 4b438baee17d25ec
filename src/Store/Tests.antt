-- ===== src/Store/Tests.antt =====
-- The repository in memory at small inputs. An algorithm is 0 or 1; the digest of a content is twice
-- its length, plus 2 for itself, plus the algorithm, so that 0 is no digest.
use olareg.Shared.{
  ℕ, ◌+◌, ◌*◌, ◌%◌, [], ◌∷◌, none, some, true, ◌⊎◌, false, ◌≡◌, ◌↔◌, refl, arith, nat_comparable,
  nat_eqb, ltb, ◌==◌, if◌then◌else◌, List, string_comparable,
}
use olareg.Shared.GoMap
use olareg.Shared.Slices
use olareg.Shared.Slices.{length, get_elem?}
use olareg.Types.Error.{Result, ok, err, other, not_found}
use olareg.Types.Digest.{Bytes, DigestLib}
use olareg.Cache
use olareg.Config.{
  bool_default, int_default, positive_default, api_defaults, gc_defaults, root_default,
  storage_defaults, set_defaults,
}
use olareg.Config.Tests.{plain}
use olareg.Store.{WriterLib, Verifies, blob_with_digest, blob_opts, default_config}
use olareg.Store.Mem.{
  MemRepo, load_file, load, blob_get, blob_delete, drop_blob, blob_session, has_blob,
}
use olareg.Store.Upload.{
  MemRepoUpload, new_upload, cancel, write, verify, change_algorithm, store_upload, close,
  open_session, blob_create,
}
use olareg.Store.System.{
  System, Op, create_op, write_op, close_op, verify_op, add_upload, at, step, run, IsSound,
  HasDigest,
}
use olareg.Store.Content
use olareg.Store.Reads
use olareg.Store.Reads.{read, SumsName}

unfoldable pub program : Unit {0}
unfolding GoMap.lookup GoMap.put GoMap.delete Slices.set get_elem? Cache.new Cache.get Cache.set
    Cache.touch Cache.delete Cache.entry_error Cache.prune_error Cache.stop_timer bool_default
    int_default positive_default api_defaults gc_defaults root_default storage_defaults set_defaults
    blob_with_digest blob_opts load_file load blob_get blob_delete drop_blob blob_session has_blob
    cancel write verify change_algorithm store_upload close open_session blob_create add_upload at
    step run
program = tt

abbrev pub digests : DigestLib ℕ
digests = record {
  zero_digest = 0;
  is_zero = λ d. nat_eqb d 0;
  to_string = λ d. "";
  parse = λ s. err (other "invalid digest");
  from_bytes = λ bs. ok (2 * length bs + 2);
}

abbrev sum_of : ℕ → Bytes → Result ℕ
sum_of a bs = if ltb a 2 then ok (2 * length bs + 2 + a) else err (other "no such algorithm")

abbrev pub lib : WriterLib ℕ ℕ
lib = record {
  digests = digests;
  alg_is_zero = λ a. false;
  canonical = 0;
  algorithm = λ d. d % 2;
  sum = sum_of;
  verify = λ a bs d. elim (sum_of a bs) [ ok x ↦ x == d | err _ ↦ false ];
}

pub lib-Verifies : Verifies lib
lib-Verifies a bs d = ground arith

pub lib-SumsName : SumsName lib
lib-SumsName a bs d h = ground arith

abbrev pub empty_repo : MemRepo ℕ
empty_repo = record {
  time_mod = 0;
  index = record {
    index = record {
      schema_version = 2;
      media_type = "";
      artifact_type = "";
      manifests = [];
      subject = none;
      annotations = none;
    };
    history = [];
    child_manifests = [];
  };
  blobs = [];
  uploads = Cache.new (record { age = 0; count = 0; prune_fn = none });
  pruning = 0;
  path = none;
  conf = set_defaults plain;
}

abbrev pub start : System ℕ ℕ
start = record { repo = empty_repo; heap = [] }

-- A blob of two bytes is uploaded under algorithm 0, and verified under algorithm 1 before it is stored.
abbrev script : List (Op ℕ ℕ)
script = create_op 1 (ok "s") [] ∷ write_op 2 (7 ∷ 8 ∷ []) 0 ∷ verify_op 7 0 ∷ close_op 3 0 ∷ []

stored :
    (read digests 7 (run lib script start).repo ≡ ok (7 ∷ 8 ∷ []))
    × (read digests 6 (run lib script start).repo ≡ err not_found)
unfolding program
stored = (refl, refl)

pub start-IsSound : IsSound lib start
unfolding program
start-IsSound = record {
  addressed = record { stored = λ d b h. ground arith; files = λ dir d b h g. ground arith };
  hashed = λ ref u h. ground arith;
}

blob_get-run_example : HasDigest lib 7 (7 ∷ 8 ∷ [])
unfolding program
blob_get-run_example = Content.blob_get-run lib script start 7 (7 ∷ 8 ∷ []) start-IsSound refl

abbrev pending : MemRepoUpload ℕ ℕ
pending = record (new_upload (default_config lib) "s") {
  buffer = 7 ∷ [];
  w = record { algo = 0; hashed = 7 ∷ [] };
}

read-close_example :
    (read digests 4 (close lib 5 empty_repo pending).0 ≡ ok (7 ∷ []))
    × ((true ≡ true) ⊎ ((close lib 5 empty_repo pending).1 ≡ some (other "digest mismatch")))
unfolding program
read-close_example = Reads.read-close lib 5 4 4 empty_repo pending lib-Verifies refl refl

read-blob_delete_example :
    read digests 7 (blob_delete digests 9 7 (run lib script start).repo).0 ≡ err not_found
unfolding program
read-blob_delete_example = Reads.read-blob_delete digests 9 7 7 (run lib script start).repo refl

verify-none_example : ((verify lib 5 pending).1 ≡ none) ↔ (lib.sum 1 (7 ∷ []) ≡ ok 5)
unfolding program
verify-none_example = Reads.verify-none lib 5 pending lib-Verifies lib-SumsName refl refl
