-- ===== src/Tags.antt =====
-- tag.go and types/taglist.go: the list of the tags of a repository, a page at a time. The handler
-- takes what `RepoGet` and then `IndexGet` return. The link to the next page is the query of its
-- address, whose other parts are those of the request.
pub mod Lists
pub mod Pages
mod Tests
use olareg.Shared.{
  ℕ, ◌-◌, String, List, [], ◌∷◌, Option, none, some, Bool, ◌&&◌, not, ◌==◌, string_comparable, ltb,
  if◌then◌else◌,
}
use olareg.Shared.Numerals.{parse_int}
use olareg.Shared.Int.{ℤ, pos, negsuc}
use olareg.Shared.Slices.{length, get_elem?, take}
use olareg.Shared.Texts.{lt_text}
use olareg.Shared.Sorting.{sort_texts}
use olareg.Types.Error.{Result, ok, err}
use olareg.Types.Descriptor.{Descriptor, Index, annotation_val, annot_ref_name}
use olareg.Response.{Failure, failure, repo_failure}

pub record TagList : Type 0 where
  pub name : String
  pub tags : List String

pub record TagQuery : Type 0 where
  pub last : String
  pub n : String

pub data Reply : Type 0 where
  failed : Failure → Reply
  -- the list, the link, and whether a body is written
  listed : TagList → Option TagQuery → Bool → Reply
  -- The handler panics, and the connection is closed.
  panics : Reply

module _ {D : Type 0} where
  -- The loop over the entries of the index. A nil map of annotations reads as an empty one.
  unfoldable pub tags_after : String → List (Descriptor D) → List String
  tags_after last [] = []
  tags_after last (d ∷ ds) =
      let tag = annotation_val d annot_ref_name in
      let rest = tags_after last ds in
      if not (tag == "") && lt_text last tag then tag ∷ rest else rest

-- `tl.Tags[:nInt]` and the link, if there are more tags; `none` where an index is out of range.
unfoldable pub cut : TagQuery → ℤ → List String → Option (List String × Option TagQuery)
cut query (negsuc n) tags = none
cut query (pos n) tags =
    let page = take n tags in
    if ltb n (length tags)
    then (elim (get_elem? page (length page - 1)) [
      | none ↦ none
      | some t ↦ some (page, some (record query { last = t }))
    ])
    else some (tags, none)

unfoldable pub paged : TagQuery → List String → Option (List String × Option TagQuery)
paged query tags =
    if query.n == ""
    then some (tags, none)
    else (elim (parse_int query.n) [ none ↦ some (tags, none) | some n ↦ cut query n tags ])

module _ {D : Type 0} where
  -- `tagList`; `is_head` says whether the method is HEAD.
  unfoldable pub tag_list : String → TagQuery → Bool → Result (Result (Index D)) → Reply
  tag_list name query is_head repo = elim repo [
    | err x ↦ failed (repo_failure x)
    | ok index ↦ elim index [
      | err _ ↦ failed (failure 404 "repository name not known to registry")
      | ok ix ↦ elim (paged query (sort_texts (tags_after query.last ix.manifests))) [
        | none ↦ panics
        | some (tags, link) ↦ listed (record { name = name; tags = tags }) link (not is_head)
      ]
    ]
  ]
