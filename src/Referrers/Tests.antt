-- ===== src/Referrers/Tests.antt =====
-- Lists of referrers at small inputs. An index is written as its digests after one byte; in `strict`
-- only an index whose entries differ in nothing but their digest can be written.
use olareg.Shared.{
  ℕ, suc, ◌≤◌, String, List, [], ◌∷◌, ◌++◌, Option, none, some, Bool, true, false, ◌&&◌, ◌≡◌, refl,
  ap, sym, map, arith, Bool-cases, inl, inr, if◌then◌else◌, nat_eqb, ◌==◌, ==_iff,
  string_comparable, nat_comparable,
}
use olareg.Shared.Int.{pos}
use olareg.Shared.Slices.{length, find?, index_func, delete_func, any, delete_at}
use olareg.Types.Error.{Result, ok, err, other}
use olareg.Types.Digest.{Bytes, DigestLib}
use olareg.Types.Descriptor.{Descriptor, Index, annotation_val, text_at}
use olareg.Types.Json.{Json}
use olareg.Types.MediaType.{oci1_manifest, oci1_manifest_list}
use olareg.Types.Referrer.{get_by_annotation}
use olareg.Types.Layout.{
  apply_opts, layout_with_children, only_created, annotations_empty, drop_tag, move_child,
  move_children, place_referrer,
}
use olareg.Types.Layout.History.{allocated, stamp_map, stamp}
use olareg.Types.Layout.Operations.{insert_desc, add_desc}
use olareg.Store.Mem.{index_insert}
use olareg.Store.System.{System}
use olareg.Store.Tests
use olareg.Store.Tests.{lib-Verifies}
use olareg.Blobs.{BlobLib}
use olareg.Blobs.Posts.{create}
use olareg.Documents.{write_document, push_document}
use olareg.Referrers.{
  Update, split_loop, prepend, referrer_split, replace_or_append, store_response, old_response,
  read_response, referrer_add, remove_referrer, referrer_delete,
}
use olareg.Referrers.Pages
use olareg.Referrers.Written.{as_written, all_named, named_subject, ReadsBack}
use olareg.Referrers.Parts.{Grows, IsSplit, too_large}
use olareg.Referrers.Lists
use olareg.Referrers.Lists.{referrers_of, Free}

abbrev pub simple : ℕ → Descriptor ℕ
simple n = record {
  media_type = oci1_manifest;
  digest = n;
  size = 3;
  urls = none;
  annotations = none;
  embedded = none;
  platform = none;
  artifact_type = "";
}

abbrev digests_of : List (Descriptor ℕ) → Bytes
digests_of [] = []
digests_of (d ∷ ds) = d.digest ∷ digests_of ds

abbrev simples : Bytes → List (Descriptor ℕ)
simples [] = []
simples (n ∷ ns) = simple n ∷ simples ns

abbrev pub listing : List (Descriptor ℕ) → Index ℕ
listing ds = record {
  schema_version = 2;
  media_type = oci1_manifest_list;
  artifact_type = "";
  manifests = ds;
  subject = none;
  annotations = none;
}

abbrev is_none : {A : Type 0} → Option A → Bool
is_none none = true
is_none (some _) = false

abbrev is_simple : Descriptor ℕ → Bool
is_simple d =
    d.media_type == oci1_manifest
    && (nat_eqb d.size 3
        && (is_none d.urls
            && (is_none d.annotations
                && (is_none d.embedded && (is_none d.platform && d.artifact_type == "")))))

abbrev all_simple : List (Descriptor ℕ) → Bool
all_simple [] = true
all_simple (d ∷ ds) = is_simple d && all_simple ds

abbrev read_listing : Bytes → Index ℕ
read_listing [] = listing []
read_listing (_ ∷ ns) = listing (simples ns)

abbrev pub strict : Json ℕ
strict = record {
  encode_index =
      λ i. if all_simple i.manifests then ok (0 ∷ digests_of i.manifests) else err (other "index");
  decode_index = λ bs. ok (read_listing bs);
  fill_index = λ bs old. read_listing bs;
  decode_manifest = λ bs. err (other "manifest");
  decode_detect = λ bs. err (other "manifest");
  decode_referrer = λ bs. err (other "manifest");
}

abbrev loose : Json ℕ
loose = record strict { encode_index = λ i. ok (0 ∷ digests_of i.manifests) }

simple-is : (d : Descriptor ℕ) → is_simple d ≡ true → simple d.digest ≡ d
simple-is d h = ground (arith, ==_iff d.media_type oci1_manifest, ==_iff d.artifact_type "")

abbrev same : Bytes → Bytes → Bool
same [] [] = true
same (x ∷ xs) (y ∷ ys) = nat_eqb x y && same xs ys
same _ _ = false

same-eq : (xs ys : Bytes) → same xs ys ≡ true → xs ≡ ys
same-eq [] [] h = refl
same-eq [] (y ∷ ys) h = ground arith
same-eq (x ∷ xs) [] h = ground arith
same-eq (x ∷ xs) (y ∷ ys) h = ground (arith, same-eq xs ys)

-- The digests of three lists are known.
abbrev known : Bytes → Result ℕ
known bs =
    if same bs (0 ∷ 5 ∷ [])
    then ok 6
    else if same bs (0 ∷ 8 ∷ [])
    then ok 7
    else if same bs (0 ∷ [])
    then ok 4
    else err (other "digest")

abbrev pub named : DigestLib ℕ
named = record Tests.digests { to_string = λ d. "sha"; from_bytes = known }

as_written-simple :
    (d : Descriptor ℕ) → is_simple d ≡ true → as_written (λ m. m) d ≡ simple d.digest
as_written-simple d h = let s = simple-is d h in sym (ap (as_written (λ m. m)) s)

written-simples :
    (ds : List (Descriptor ℕ))
    → all_simple ds ≡ true
    → simples (digests_of ds) ≡ map (as_written (λ m. m)) ds
written-simples [] h = refl
written-simples (d ∷ ds) h =
    ground (arith, as_written-simple d (ground arith), written-simples ds (ground arith))

pub strict-ReadsBack : (digests : DigestLib ℕ) → ReadsBack digests strict
strict-ReadsBack digests = record {
  order = λ m. m;
  same = λ key m. refl;
  written = λ i bs r h. ground (arith, written-simples i.manifests);
  entries = λ bs i h. ground arith;
  subject = λ bs i h. ground arith;
}

abbrev pub lib : BlobLib ℕ ℕ
lib = record {
  writer = record Tests.lib { digests = named };
  algorithm_lookup = λ s. err (other "no such algorithm");
  encode_state = λ n. "";
  decode_state = λ s. none;
}

abbrev pub update : Update
update = record {
  start = record { now = 1; later = 2; session = ok "s" };
  clock = record { now = 7; format_rfc3339 = λ t. "now"; parse_rfc3339 = λ s. none };
  now = 3;
}

unfoldable pub lists : Unit {0}
unfolding Tests.program find? index_func delete_func any delete_at annotation_val text_at
    get_by_annotation apply_opts layout_with_children only_created annotations_empty drop_tag
    move_child move_children place_referrer allocated stamp_map stamp insert_desc add_desc
    index_insert create write_document push_document split_loop prepend referrer_split
    replace_or_append store_response old_response read_response referrer_add remove_referrer
    referrer_delete too_large all_named named_subject
lists = tt

abbrev listed : System ℕ ℕ
listed = (referrer_add lib strict update 9 (simple 5) Tests.start).0

listed-Free : (ds : List (Descriptor ℕ)) → Free lib strict ds listed.repo
unfolding lists
listed-Free ds i raw dig m q g bs h = elim (Bool-cases (same raw (0 ∷ 5 ∷ []))) [
  | inl k ↦ ground (arith, same-eq raw (0 ∷ 5 ∷ []))
  | inr k ↦ ground (arith, same-eq raw (0 ∷ 8 ∷ []), same-eq raw (0 ∷ []))
]

referrers_of-delete_example :
    referrers_of lib strict 9 (referrer_delete lib strict update 9 (simple 5) listed).0 ≡ []
unfolding lists
referrers_of-delete_example =
    Lists.referrers_of-delete lib strict update 9 (simple 5) listed (strict-ReadsBack named)
      lib-Verifies (λ h. ground (arith, ==_iff {A = String} "sha" "")) refl (listed-Free []) refl

abbrev three : Index ℕ
three = listing (simple 5 ∷ simple 6 ∷ simple 7 ∷ [])

length-digests_of : (ds : List (Descriptor ℕ)) → length (digests_of ds) ≡ length ds
length-digests_of [] = refl
length-digests_of (d ∷ ds) = ap suc (length-digests_of ds)

length-snoc : (ds : List (Descriptor ℕ)) (d : Descriptor ℕ) → 1 ≤ length (ds ++ d ∷ [])
length-snoc [] d = ground arith
length-snoc (x ∷ ds) d = ground arith

loose-Grows : Grows loose (pos 2) three
loose-Grows = record {
  total = λ cs. (0 ∷ digests_of cs, refl);
  some_byte = λ cs bs h k. ground arith;
  longer = λ cs d one bs h k. ground (arith, length-digests_of (cs ++ d ∷ []), length-snoc cs d);
}

referrer_split-IsSplit_example :
    (pages : List Bytes) × ((errs : List (Descriptor ℕ)) × ((referrer_split loose
            (0 ∷ 5 ∷ 6 ∷ 7 ∷ [])
            (pos 2)
          ≡ ok (pages, errs))
        × IsSplit loose (pos 2) three [] three.manifests pages errs))
referrer_split-IsSplit_example =
    Pages.referrer_split-IsSplit loose (pos 2) three (0 ∷ 5 ∷ 6 ∷ 7 ∷ []) loose-Grows refl

three_pages :
    referrer_split loose (0 ∷ 5 ∷ 6 ∷ 7 ∷ []) (pos 2)
    ≡ ok ((0 ∷ 5 ∷ []) ∷ (0 ∷ 6 ∷ []) ∷ (0 ∷ 7 ∷ []) ∷ [], [])
unfolding lists
three_pages = refl
