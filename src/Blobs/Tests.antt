-- ===== src/Blobs/Tests.antt =====
-- The handlers of blobs at small inputs. The state of an upload is as many letters as it has bytes.
use olareg.Shared.{
  ℕ, zero, suc, String, List, [], ◌∷◌, none, some, not, ◌&&◌, ◌≡◌, refl, arith, ◌==◌,
  string_comparable, nat_comparable, if◌then◌else◌,
}
use olareg.Shared.Int.{pos}
use olareg.Types.Error.{ok, err, other}
use olareg.Types.Digest.{DigestLib, Bytes}
use olareg.Cache
use olareg.Store.Mem.{has_blob, Prune, by_age, by_count, prune, fire_timer, run_pruning}
use olareg.Store.Reads.{read}
use olareg.Store.System.{System, create_op, write_op, close_op, run, IsSound}
use olareg.Store.Content
use olareg.Store.Tests
use olareg.Store.Tests.{program, lib-Verifies, lib-SumsName}
use olareg.Store.Upload.{MemRepoUpload, digest, size}
use olareg.Shared.Numerals.{parse_int, natural}
use olareg.Blobs.{BlobLib, Body, index_dash, equals_size, blob_valid_range}
use olareg.Blobs.Handlers.{
  find_session, on_session, copy_chunks, copy, valid_state, append_chunk, patch_upload,
  finish_upload, store_body, match_algorithm, put_upload,
}
use olareg.Blobs.Posts.{
  Registry, Start, create, mount_content, mount_from, mount_upload, post_algorithm, post_digest,
  begin_upload, post_push, post_upload,
}
use olareg.Blobs.Put
use olareg.Blobs.Put.{Stores, Same}
use olareg.Blobs.Mounts
use olareg.Blobs.Protocol
use olareg.Blobs.Client.{Parts, push_blob, send, prunings}

unfoldable letters : ℕ → String
letters zero = String.[]
letters (suc n) = String.◌∷◌ "x" (letters n)

unfoldable count : String → ℕ
count String.[] = 0
count (String.◌∷◌ c s) = suc (count s)

abbrev named : DigestLib ℕ
named = record Tests.digests {
  parse = λ s. if s == "three" then ok 8 else err (other "invalid digest");
}

abbrev lib : BlobLib ℕ ℕ
lib = record {
  writer = record Tests.lib { digests = named };
  algorithm_lookup = λ s. err (other "no such algorithm");
  encode_state = letters;
  decode_state = λ s. some (pos (count s));
}

unfoldable handlers : Unit {0}
unfolding program letters count index_dash equals_size blob_valid_range find_session on_session
    copy_chunks copy valid_state append_chunk patch_upload finish_upload store_body match_algorithm
    put_upload create mount_content mount_from mount_upload prunings prune fire_timer run_pruning
    post_algorithm post_digest begin_upload post_push post_upload push_blob send digest size
    parse_int natural
handlers = tt

abbrev begin : Start
begin = record { now = 1; later = 2; session = ok "s" }

abbrev part : Bytes → Body
part bs = record { chunks = (3, bs) ∷ []; error = none }

-- A session may be as old as 10, and there may be three.
abbrev limited : System ℕ ℕ
limited = record Tests.start {
  repo = record (Tests.start.repo) {
    uploads = Cache.new (record { age = 10; count = 3; prune_fn = none });
  };
}

abbrev empty : Registry ℕ ℕ
empty = λ name. limited

-- The timer fires before the end of the upload.
abbrev parts : Parts
parts = (by_age 2 ("s" ∷ []) ∷ [], (3, part (7 ∷ 8 ∷ []))) ∷ []

abbrev wait : List Prune
wait = by_age 13 ("s" ∷ []) ∷ by_count 13 ("s" ∷ []) ∷ []

start-IsSound : IsSound lib.writer Tests.start
unfolding handlers
start-IsSound = record {
  addressed = record { stored = λ d b h. ground arith; files = λ dir d b h g. ground arith };
  hashed = λ ref u h. ground arith;
}

abbrev half : System ℕ ℕ
half = run lib.writer (create_op 1 (ok "s") [] ∷ write_op 2 (7 ∷ 8 ∷ []) 0 ∷ []) Tests.start

abbrev pending : MemRepoUpload ℕ ℕ
pending = record {
  buffer = 7 ∷ 8 ∷ [];
  alg = 0;
  w = record { algo = 0; hashed = 7 ∷ 8 ∷ [] };
  expect = 0;
  session_id = "s";
}

put_upload-created_example :
    (named.parse "three" ≡ ok 8)
    × Stores lib 8
        (7 ∷ 8 ∷ 9 ∷ [])
        half.repo
        (put_upload lib 3 4 "s" "" "three" "xx" (part (9 ∷ [])) none half).0.repo
unfolding handlers
put_upload-created_example =
    Put.put_upload-created lib 3 4 "s" "" "three" "xx" (part (9 ∷ [])) none half 0 pending 8
      lib-Verifies lib-SumsName
      (Content.run-IsSound lib.writer (create_op 1 (ok "s") [] ∷ write_op 2 (7 ∷ 8 ∷ []) 0 ∷ [])
        Tests.start start-IsSound)
      refl refl

put_upload-Same_example :
    read named 8 (put_upload lib 3 4 "s" "" "three" "x" (part (9 ∷ [])) none half).0.repo
    ≡ read named 8 half.repo
unfolding handlers
put_upload-Same_example =
    Put.put_upload-Same lib 3 4 "s" "" "three" "x" (part (9 ∷ [])) none half refl
      (λ h. ground arith) 8

abbrev stocked : Registry ℕ ℕ
stocked = λ name.
    if name == "src"
    then run lib.writer
        (create_op 1 (ok "t") [] ∷ write_op 2 (7 ∷ 8 ∷ 9 ∷ []) 0 ∷ close_op 3 0 ∷ []) Tests.start
    else Tests.start

mount_upload-reads_example :
    (named.parse "three" ≡ ok 8)
    × ((name : String) (j : ℕ)
        → read named j
            ((mount_upload lib (λ n. none) begin "src" "tgt" "three" stocked).0 name).repo
          ≡ (if "tgt" == name && (8 == j && not (has_blob 8 (stocked "tgt").repo))
              then read named 8 (stocked "src").repo
              else read named j (stocked name).repo))
unfolding handlers
mount_upload-reads_example =
    Mounts.mount_upload-reads lib (λ n. none) begin "src" "tgt" "three" stocked 8 lib-Verifies refl
