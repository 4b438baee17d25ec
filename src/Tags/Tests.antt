-- ===== src/Tags/Tests.antt =====
-- The list of tags at small inputs.
use olareg.Shared.{
  ℕ, ◌∷◌, [], String, none, some, ◌≡◌, refl, arith, ◌==◌, ==_iff, string_comparable, nat_comparable,
  inl, inr, not, ◌&&◌, false, true, ◌≤◌, Bool-cases, subst,
}
use olareg.Shared.GoMap
use olareg.Shared.Numerals.{parse_int}
use olareg.Shared.Members.{contains}
use olareg.Shared.Texts.{lt_text}
use olareg.Shared.Slices.{get_elem?, any, count_p}
use olareg.Shared.Sorting.{insert_text, sort_texts, IsAscending}
use olareg.Types.Error.{ok}
use olareg.Types.Descriptor.{Descriptor, Index, annotation_val, annot_ref_name, text_at}
use olareg.Types.Layout.{has_tag, annotations_empty, only_created}
use olareg.Types.Layout.WellFormed.{WellFormed}
use olareg.Tags.{TagQuery, TagList, listed, tags_after, cut, paged, tag_list}
use olareg.Tags.Pages

unfoldable program : Unit {0}
unfolding parse_int GoMap.lookup get_elem? annotations_empty only_created insert_text sort_texts
    tags_after cut paged tag_list Pages.follow_links any count_p annotation_val text_at
program = tt

abbrev tagged : String → Descriptor ℕ
tagged t = record {
  media_type = "m";
  digest = 1;
  size = 1;
  urls = none;
  annotations = some ((annot_ref_name, t) ∷ []);
  embedded = none;
  platform = none;
  artifact_type = "";
}

abbrev three : Index ℕ
three = record {
  schema_version = 2;
  media_type = "";
  artifact_type = "";
  manifests = tagged "c" ∷ tagged "a" ∷ tagged "b" ∷ [];
  subject = none;
  annotations = none;
}

abbrev pair : TagQuery
pair = record { last = ""; n = "2" }

abbrev every : TagQuery
every = record { last = "a"; n = "" }

abbrev below : TagQuery
below = record { last = "z"; n = "-1" }

one_tag : (t : String) → count_p (has_tag t) three.manifests ≤ 1
unfolding program
one_tag t = elim (Bool-cases ("a" == t)) [
  | inl q ↦ subst (λ u. count_p (has_tag u) three.manifests ≤ 1) ((==_iff "a" t).0 q) (omega arith)
  | inr q ↦ elim (Bool-cases ("b" == t)) [
    | inl r ↦
        subst (λ u. count_p (has_tag u) three.manifests ≤ 1) ((==_iff "b" t).0 r) (omega arith)
    | inr r ↦ ground (arith, q, r)
  ]
]

three-WellFormed : WellFormed three.manifests
unfolding program
three-WellFormed = record { unique = λ t h. one_tag t; lone = λ q h. ground arith }

first_page :
    tag_list "r" pair false (ok (ok three))
    ≡ listed
        (record { name = "r"; tags = "a" ∷ "b" ∷ [] })
        (some (record { last = "b"; n = "2" }))
        true
unfolding program
first_page = refl

follow_links-tag_list_example : Pages.follow_links "r" 4 pair three ≡ some ("a" ∷ "b" ∷ "c" ∷ [])
unfolding program
follow_links-tag_list_example = Pages.follow_links-tag_list "r" pair three 1 three-WellFormed refl

tag_list-IsAscending_example :
    (tl : TagList) × ((tag_list "r" every true (ok (ok three)) ≡ listed tl none false)
      × (IsAscending tl.tags
          × ((t : String)
              → contains tl.tags t
                ≡ (not (t == "") && (lt_text "a" t && any (has_tag t) three.manifests)))))
tag_list-IsAscending_example = Pages.tag_list-IsAscending "r" every true three three-WellFormed refl
