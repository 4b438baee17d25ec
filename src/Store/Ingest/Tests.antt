-- ===== src/Store/Ingest/Tests.antt =====
-- The ingest at small inputs: a store whose digest 5 is an index that lists 5 and 6, and 6 one that
-- lists 6 and 7.
use olareg.Shared.{
  ℕ, List, [], ◌∷◌, none, some, Bool, true, ◌≡◌, refl, nat_eqb, nat_comparable, arith,
  if◌then◌else◌, string_comparable, subst, Bool-cases, inl, inr,
}
use olareg.Shared.Slices.{length, any, count_p}
use olareg.Types.Error.{Result, ok, err, other}
use olareg.Types.Digest.{Bytes}
use olareg.Types.Descriptor.{Descriptor, Index}
use olareg.Types.MediaType.{oci1_manifest_list, media_type_index}
use olareg.Types.Layout.{LayoutIndex, add_children, has_digest}
use olareg.Store.Collect.{Repo, bare, add_member}
use olareg.Store.Collect.Kept.{IsStore}
use olareg.Store.Tests
use olareg.Store.Dedup
use olareg.Store.Ingest.{last_first, dedup_loop, referrer_list_dedup}
use olareg.Store.Ingest.Index.{IngestLib, get_index, scan_children}
use olareg.Store.Ingest.Entries.{load_children}
use olareg.Store.Ingest.Fuel
use olareg.Store.Ingest.Fuel.{AreIn, Covers}

abbrev twice : List (Descriptor ℕ)
twice = bare 5 ∷ bare 6 ∷ bare 5 ∷ bare 7 ∷ []

dedup_twice : referrer_list_dedup twice ≡ bare 5 ∷ bare 6 ∷ bare 7 ∷ []
unfolding referrer_list_dedup dedup_loop last_first any add_member length
dedup_twice = refl

referrer_list_dedup-count_example : count_p (has_digest 5) (referrer_list_dedup twice) ≡ 1
unfolding referrer_list_dedup dedup_loop last_first any add_member
referrer_list_dedup-count_example = Dedup.referrer_list_dedup-count 5 twice

abbrev nested : ℕ → Descriptor ℕ
nested d = record (bare d) { media_type = oci1_manifest_list }

abbrev listing : List (Descriptor ℕ) → Index ℕ
listing ds = record {
  schema_version = 2;
  media_type = oci1_manifest_list;
  artifact_type = "";
  manifests = ds;
  subject = none;
  annotations = none;
}

abbrev read_listing : Bytes → Result (Index ℕ × Bool)
read_listing [] = err (other "index")
read_listing (d ∷ _) =
    if nat_eqb d 5
    then ok (listing (nested 5 ∷ nested 6 ∷ []), true)
    else if nat_eqb d 6
    then ok (listing (nested 6 ∷ bare 7 ∷ []), true)
    else err (other "index")

abbrev store : Repo ℕ ℕ
store = record {
  get = λ d r. (r, ok (d ∷ []));
  meta = λ d r. (r, err (other "meta"));
  list = λ r. ok [];
  remove = λ now d r. (r, none);
}

store-IsStore : IsStore store
store-IsStore = record {
  get_same = λ d j r. refl;
  meta_same = λ d j r. refl;
  remove_other = λ now d j r h. refl;
}

abbrev lib : IngestLib ℕ ℕ
lib = record {
  repo = store;
  create = λ d bs r. (r, none);
  decode = read_listing;
  json = record {
    encode_index = λ i. err (other "json");
    decode_index = λ bs. err (other "json");
    fill_index = λ bs i. i;
    decode_manifest = λ bs. err (other "json");
    decode_detect = λ bs. err (other "json");
    decode_referrer = λ bs. err (other "json");
  };
  digests = Tests.digests;
}

read_listing-AreIn :
    (bs : Bytes) (i : Index ℕ) (b : Bool)
    → read_listing bs ≡ ok (i, b)
    → AreIn (5 ∷ 6 ∷ 7 ∷ []) i.manifests
unfolding any
read_listing-AreIn [] i b h = ground arith
read_listing-AreIn (d ∷ ds) i b h = elim (Bool-cases (nat_eqb d 5)) [
  | inl k ↦
      let same : listing (nested 5 ∷ nested 6 ∷ []) ≡ i = ground arith in
      subst (λ x. AreIn (5 ∷ 6 ∷ 7 ∷ []) x.manifests) same (refl, (refl, tt))
  | inr k ↦ elim (Bool-cases (nat_eqb d 6)) [
    | inl g ↦
        let same : listing (nested 6 ∷ bare 7 ∷ []) ≡ i = ground arith in
        subst (λ x. AreIn (5 ∷ 6 ∷ 7 ∷ []) x.manifests) same (refl, (refl, tt))
    | inr g ↦ ground arith
  ]
]

store-Covers : Covers lib store-IsStore (5 ∷ 6 ∷ 7 ∷ []) 0
store-Covers = record { lists = λ d bs i b k q. read_listing-AreIn bs i b q }

abbrev ingested : LayoutIndex ℕ
ingested = record { index = listing (nested 5 ∷ []); history = []; child_manifests = [] }

scan_children-enough_example :
    (r : ℕ) × ((li : LayoutIndex ℕ) × (scan_children lib 4 (nested 5 ∷ []) [] 0 ingested
        ≡ some (r, li)))
unfolding any count_p length
scan_children-enough_example =
    Fuel.scan_children-enough lib store-IsStore (5 ∷ 6 ∷ 7 ∷ []) 4 (nested 5 ∷ []) [] 0 ingested
      store-Covers (ground arith)

scanned :
    scan_children lib 4 (nested 5 ∷ []) (5 ∷ []) 0 ingested
    ≡ some (0, record ingested { child_manifests = nested 6 ∷ bare 7 ∷ [] })
unfolding scan_children get_index load_children media_type_index add_children add_member any
scanned = refl
