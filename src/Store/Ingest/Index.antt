-- ===== src/Store/Ingest/Index.antt =====
-- internal/store/store.go: `indexIngest`, which converts the lists of referrers under fallback tags and
-- loads the children of an index. `create` is BlobCreate for a digest, with Write and Close; `decode`
-- says of an index also whether it has a slice of manifests.
use olareg.Shared.{
  ℕ, zero, suc, String, List, [], ◌∷◌, ◌++◌, Option, none, some, Bool, true, ◌&&◌, not, Comparable,
  string_comparable, if◌then◌else◌,
}
use olareg.Shared.GoMap
use olareg.Shared.GoMap.{GoMap}
use olareg.Types.Error.{Error, Result, ok, err, other, ◌>>=◌}
use olareg.Types.Digest.{DigestLib, Bytes}
use olareg.Types.Descriptor.{Descriptor, Index}
use olareg.Types.Json.{Json}
use olareg.Types.MediaType.{oci1_manifest_list}
use olareg.Types.Layout.{Clock, LayoutIndex}
use olareg.Types.Layout.Operations.{add_desc}
use olareg.Store.Collect.{Repo}
use olareg.Store.Ingest.{Responses, index_valid_referrer, referrer_list_dedup}
use olareg.Store.Ingest.Entries.{
  Entries, Conversion, about_subject, set_schema, set_converted, is_converted, list_at, merge_lists,
  mark_index, load_children, remove_tags, other_response, list_desc,
}

pub record IngestLib (R D : Type 0) : Type 0 where
  pub repo : Repo R D
  pub create : D → Bytes → R → R × Option Error
  pub decode : Bytes → Result (Index D × Bool)
  pub json : Json D
  pub digests : DigestLib D

module _ {R D : Type 0} ⦃e : Comparable D⦄ (lib : IngestLib R D) where
  -- `repoGetIndex`
  unfoldable pub get_index : Descriptor D → R → R × Result (Index D × Bool)
  get_index d r = let got = lib.repo.get d.digest r in (got.0, got.1 >>= lib.decode)

  -- The referrers that the index names for a subject already.
  unfoldable pub known_referrers : Option (Descriptor D) → R → R × List (Descriptor D)
  known_referrers none r = (r, [])
  known_referrers (some d) r =
      let got = get_index d r in (got.0, elim got.1 [ err _ ↦ [] | ok (i, _) ↦ i.manifests ])

  -- `for len(scanChildren) > 0 { … }`, `none` where the fuel does not last.
  unfoldable pub scan_children :
      ℕ → List (Descriptor D) → List D → R → LayoutIndex D → Option (R × LayoutIndex D)
  scan_children n [] seen r li = some (r, li)
  scan_children zero (d ∷ queue) seen r li = none
  scan_children (suc n) (d ∷ queue) seen r li =
      let got = get_index d r in
      elim got.1 [
        | err _ ↦ scan_children n queue seen got.0 li
        | ok (i, _) ↦
            let (li', (seen', queue')) = load_children i.manifests li seen queue in
            scan_children n queue' seen' got.0 li'
      ]

module _ {R D : Type 0} ⦃e : Comparable D⦄ (lib : IngestLib R D) (clock : Clock) where
  -- A fallback tag, once its list is checked.
  unfoldable pub convert_list :
      GoMap String (Descriptor D) → Descriptor D → R × Responses D → Conversion R D → Conversion R D
  convert_list responses d (r, v) c =
      let subject = lib.digests.to_string v.subject in
      if v.valid && not (other_response (GoMap.lookup subject responses) d)
      then record c {
        store = r;
        index = add_desc clock (about_subject subject d) [] c.index;
        modified = true;
      }
      else record c {
        store = r;
        add = merge_lists lib.digests v.lists c.add;
        remove = c.remove ++ d ∷ [];
      }

  unfoldable pub convert_tags :
      GoMap String (Descriptor D) → List (Descriptor D) → Conversion R D → Conversion R D
  convert_tags responses [] c = c
  convert_tags responses (d ∷ ds) c =
      let got = get_index lib d c.store in
      convert_tags responses ds (elim got.1 [
        | err _ ↦ record c { store = got.0 }
        | ok (i, some_manifests) ↦
            if some_manifests
            then convert_list responses d
                (index_valid_referrer lib.repo lib.digests lib.json i.manifests got.0) c
            else record c { store = got.0 }
      ])

  unfoldable pub add_response :
      String → List (Descriptor D) → Conversion R D → Conversion R D × Option Error
  add_response subject ds c =
      let resp : Index D = record {
        schema_version = 2;
        media_type = oci1_manifest_list;
        artifact_type = "";
        manifests = referrer_list_dedup ds;
        subject = none;
        annotations = none;
      } in
      elim (lib.json.encode_index resp) [
        | err x ↦ (c, some x)
        | ok raw ↦ elim (lib.digests.from_bytes raw) [
          | err x ↦ (c, some x)
          | ok dig ↦
              let created = lib.create dig raw c.store in
              elim created.1 [
                | some x ↦ (record c { store = created.0 }, some x)
                | none ↦ (
                  record c {
                    store = created.0;
                    index = add_desc clock (list_desc subject dig raw) [] c.index;
                    modified = true;
                  },
                  none,
                )
              ]
        ]
      ]

  -- `for subj, respList := range addResp { … }`; `order` has the keys in the order of the loop.
  unfoldable pub add_responses :
      GoMap String (Descriptor D) → List String → Conversion R D → Conversion R D × Option Error
  add_responses responses [] c = (c, none)
  add_responses responses (k ∷ order) c =
      let known = known_referrers lib (GoMap.lookup k responses) c.store in
      let r = add_response k (list_at k c.add ++ known.1) (record c { store = known.0 }) in
      elim r.1 [ some x ↦ (r.0, some x) | none ↦ add_responses responses order r.0 ]

  -- The conversion, if it is needed; an error leaves the index as far as it came.
  unfoldable pub convert_index :
      Bool → List String → Entries D → Conversion R D → Conversion R D × Option Error
  convert_index enabled order m c =
      let tagged = convert_tags m.responses m.tags c in
      let r = add_responses m.responses order tagged in
      if enabled && not (is_converted c.index)
      then (elim r.1 [
        | some x ↦ (r.0, some x)
        | none ↦ (
          record (r.0) {
            index = set_converted (remove_tags clock r.0.remove r.0.index);
            modified = true;
          },
          none,
        )
      ])
      else (c, none)

  -- `indexIngest`: the store, the index, and whether the index is modified or an error.
  unfoldable pub index_ingest :
      ℕ → Bool → List String → R → LayoutIndex D → Option ((R × LayoutIndex D) × Result Bool)
  index_ingest fuel enabled order r li =
      let (li', changed) = set_schema li in
      let empty : Entries D = record { seen = []; scan = []; responses = []; tags = [] } in
      let m = mark_index li'.index.manifests empty in
      let start : Conversion R D = record {
        store = r;
        index = li';
        modified = changed;
        add = [];
        remove = [];
      } in
      let c = convert_index enabled order m start in
      if not enabled && is_converted li
      then some ((r, li), err (other "referrers converted"))
      else (elim c.1 [
        | some x ↦ some ((c.0.store, c.0.index), err x)
        | none ↦ elim (scan_children lib fuel m.scan m.seen c.0.store c.0.index) [
          | none ↦ none
          | some p ↦ some (p, ok c.0.modified)
        ]
      ])
