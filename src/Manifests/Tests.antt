-- ===== src/Manifests/Tests.antt =====
-- The handlers of manifests at small inputs: an image whose configuration is stored, if it has two
-- bytes, and that has no layers.
use olareg.Shared.{
  ℕ, String, [], ◌∷◌, inl, none, some, true, ◌≡◌, refl, arith, ==_iff, ◌==◌, string_comparable,
  nat_comparable, if◌then◌else◌,
}
use olareg.Shared.Int.{pos}
use olareg.Shared.Cutting
use olareg.Types.Error.{ok, err, other}
use olareg.Types.Digest.{Bytes}
use olareg.Types.Descriptor.{Manifest}
use olareg.Referrers.Written.{ReadsBack}
use olareg.Types.MediaType.{oci1_manifest, media_type_image, media_type_index, media_type_foreign}
use olareg.Types.Tag.{ref_tag_re}
use olareg.Types.Layout.{untag_entry, untag_at, untag_loop, untag, compatible, retag_at, place}
use olareg.Types.Layout.History.{
  history_time, history_entry, history_of, add_history, history_removed,
}
use olareg.Types.Layout.Operations.{
  strip, first_index, get_digest, get_desc, rm_tagged, rm_digest, rm_desc,
}
use olareg.Store.Mem.{index_remove}
use olareg.Config.{Config}
use olareg.Store.Reads.{read}
use olareg.Store.System.{System, create_op, write_op, close_op, run}
use olareg.Store.Tests as StoreTests
use olareg.Store.Tests.{lib-Verifies}
use olareg.Referrers.Tests.{named, update, simple, lists, strict, strict-ReadsBack}
use olareg.Referrers.Tests as ReferrerTests
use olareg.Manifests.{
  ManifestLib, PutRequest, created, content, failed, read_limited, known_type, query_digest,
  parse_arg, parse_put, read_put,
}
use olareg.Manifests.Check.{
  layer_blobs, image_blobs, index_blobs, subject_of, unless_missing, missing, manifest_verify_image,
  manifest_verify_index, check_image, check_index, check_content,
}
use olareg.Manifests.Put.{
  PutTimes, insert_tags, insert_manifest, finish_put, store_put, put_checked, manifest_put,
}
use olareg.Manifests.Serve.{
  manifest_unknown, find_desc, send_manifest, manifest_get, forget_referrer, leave_referrers,
  manifest_delete,
}
use olareg.Manifests.Stored
use olareg.Manifests.Removed
use olareg.Manifests.Refused
use olareg.Manifests.Complete
use olareg.Manifests.Complete.{config}
use olareg.Manifests.Listed

abbrev image : Manifest ℕ
image = record {
  schema_version = 2;
  media_type = oci1_manifest;
  artifact_type = "";
  config = record (simple 6) { media_type = "" };
  layers = [];
  subject = none;
  annotations = none;
}

abbrev lib : ManifestLib ℕ ℕ
lib = record {
  blobs = record ReferrerTests.lib {
    writer = record StoreTests.lib {
      digests = record named { parse = λ s. if s == "sha:8" then ok 8 else err (other "digest") };
    };
  };
  json = record strict { decode_manifest = λ bs. ok image };
  from_bytes = λ a bs. StoreTests.lib.sum a bs;
  read_index = λ bs. err (other "index");
}

unfoldable handlers : Unit {0}
unfolding lists Cutting.before Cutting.lower_char Cutting.to_lower Cutting.trim_left
    Cutting.trim_right Cutting.trim_space media_type_image media_type_index media_type_foreign
    ref_tag_re untag_entry untag_at untag_loop untag compatible retag_at place history_time
    history_entry history_of add_history history_removed strip first_index get_digest get_desc
    rm_tagged rm_digest rm_desc index_remove read_limited known_type layer_blobs image_blobs
    index_blobs subject_of unless_missing query_digest parse_arg parse_put read_put missing
    manifest_verify_image manifest_verify_index check_image check_index check_content insert_tags
    insert_manifest finish_put store_put put_checked manifest_put find_desc send_manifest
    manifest_get forget_referrer leave_referrers manifest_delete
handlers = tt

-- The configuration is stored.
abbrev stocked : System ℕ ℕ
stocked =
    run StoreTests.lib (create_op 1 (ok "t") [] ∷ write_op 2 (7 ∷ 8 ∷ []) 0 ∷ close_op 3 0 ∷ [])
      StoreTests.start

abbrev request : PutRequest
request = record {
  content_type = "application/vnd.oci.image.manifest.v1+json; charset=utf-8";
  content_length = pos 3;
  digest = "";
  tags = [];
  body = 1 ∷ 2 ∷ 3 ∷ [];
  error = none;
}

abbrev times : PutTimes
times = record { start = update.start; inserts = λ n. (update.clock, 4); referrer = update }

abbrev put : String → System ℕ ℕ → System ℕ ℕ
put arg s = (manifest_put lib StoreTests.start.repo.conf times arg request none s).0

accepted_put :
    (manifest_put lib StoreTests.start.repo.conf times "v1" request none stocked).1
    ≡ created 8 ("v1" ∷ []) none
unfolding handlers
accepted_put = refl

manifest_get-manifest_put_example :
    (mt : String) × ((manifest_get lib "v1" [] none (put "v1" stocked)).1
      ≡ content 8 mt (1 ∷ 2 ∷ 3 ∷ []))
unfolding handlers
manifest_get-manifest_put_example =
    Stored.manifest_get-manifest_put lib StoreTests.start.repo.conf times "v1" request none stocked
      8 (1 ∷ 2 ∷ 3 ∷ []) ("v1" ∷ []) lib-Verifies refl (λ bs h. ground arith)
      (λ h. ground (arith, ==_iff {A = String} "sha" "")) refl refl

manifest_delete-gone_example :
    (manifest_get lib "sha:8" [] none
      (manifest_delete lib StoreTests.start.repo.conf update update.clock 5 "sha:8" none
        (put "v1" stocked)).0).1
    ≡ failed manifest_unknown
unfolding handlers
manifest_delete-gone_example =
    Removed.manifest_delete-gone lib StoreTests.start.repo.conf update update.clock 5 "sha:8" none
      (put "v1" stocked) [] refl refl

manifest_put-refused_example :
    Refused.Quiet lib StoreTests.start
      (manifest_put lib StoreTests.start.repo.conf times "v1" request none StoreTests.start).0
unfolding handlers
manifest_put-refused_example =
    Refused.manifest_put-refused lib StoreTests.start.repo.conf times "v1" request none
      StoreTests.start refl

manifest_put-IsStored_example :
    (bs : Bytes) × (read lib.blobs.writer.digests 6 stocked.repo ≡ ok bs)
unfolding handlers
manifest_put-IsStored_example =
    Complete.manifest_put-IsStored lib StoreTests.start.repo.conf times "v1" request none stocked 8
      (1 ∷ 2 ∷ 3 ∷ []) ("v1" ∷ []) none 6 refl refl (config image refl refl refl (inl refl))

-- The image is about another manifest, and its configuration is elsewhere.
abbrev about : ManifestLib ℕ ℕ
about = record lib {
  json = record strict {
    decode_manifest = λ bs. ok (record image {
      config = record (simple 6) { media_type = ""; urls = some ("https://example.com/6" ∷ []) };
      subject = some (simple 9);
    });
  };
}

abbrev enabled : Config
enabled =
    let conf = StoreTests.start.repo.conf in
    record conf {
      api = record (conf.api) { referrer = record (conf.api.referrer) { enabled = some true } };
    }

about-ReadsBack : ReadsBack about.blobs.writer.digests about.json
about-ReadsBack =
    let b = strict-ReadsBack about.blobs.writer.digests in
    record {
      order = b.order;
      same = b.same;
      written = b.written;
      entries = b.entries;
      subject = b.subject;
    }

manifest_put-IsListed_example :
    Listed.IsListed about 9 8
      (1 ∷ 2 ∷ 3 ∷ [])
      (manifest_put about enabled times "v1" request none StoreTests.start).0
unfolding handlers
manifest_put-IsListed_example =
    Listed.manifest_put-IsListed about enabled times "v1" request none StoreTests.start 8 9
      (1 ∷ 2 ∷ 3 ∷ []) ("v1" ∷ []) about-ReadsBack lib-Verifies
      (λ h. ground (arith, ==_iff {A = String} "sha" "")) refl
      (λ ds m i raw dig same q g bs h. ground arith) (λ j bs h. ground arith) (λ bs h. ground arith)
      (λ i bs h g. ground arith) refl refl refl
