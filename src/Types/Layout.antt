-- ===== src/Types/Layout.antt =====
-- types/layout.go: the index of a repository, by tag and by digest.
pub mod History
pub mod Operations
pub mod Lemmas
pub mod Tags
pub mod Steps
pub mod Place
pub mod Untag
pub mod WellFormed
pub mod Invariant
pub mod Digests
pub mod Removal
pub mod Preservation
pub mod Deletes
pub mod Log
mod Tests
use mathlib.Core.List.{foldl}
use mathlib.Core.Option
use olareg.Shared.{
  ℕ, zero, suc, String, List, [], ◌∷◌, ◌++◌, Option, none, some, Bool, true, ◌&&◌, ◌||◌, not,
  Comparable, ◌==◌, string_comparable, if◌then◌else◌,
}
use olareg.Shared.GoMap
use olareg.Shared.GoMap.{GoMap}
use olareg.Shared.Slices.{length, get_elem?, set, delete_at, index_func, any}
use olareg.Types.Descriptor.{
  Descriptor, Index, Annotations, annotation_val, annot_created, annot_ref_name,
  annot_referrer_subject,
}

-- `reproducible.TimeNow()` at the moment of the call, and `Format` and `Parse` of package time for
-- RFC 3339. A time is its nanoseconds since the zero time.
pub record Clock : Type 0 where
  pub now : ℕ
  pub format_rfc3339 : ℕ → String
  pub parse_rfc3339 : String → Option ℕ

pub record LayoutHistory (D : Type 0) : Type 0 where
  pub time : ℕ
  pub deleted : Bool
  pub descriptor : Descriptor D

pub record LayoutIndex (D : Type 0) : Type 0 where
  pub index : Index D
  pub history : GoMap String (List (LayoutHistory D))
  pub child_manifests : List (Descriptor D)

pub record LayoutIndexConf (D : Type 0) : Type 0 where
  pub children : List (Descriptor D)

abbrev pub LayoutIndexOpt : Type 0 → Type 0
LayoutIndexOpt D = LayoutIndexConf D → LayoutIndexConf D

-- The loop of `annotationsEmpty`: any key but the creation time counts.
unfoldable pub only_created : Annotations → Bool
only_created [] = true
only_created ((k, v) ∷ m) = k == annot_created && only_created m

-- The loop over a nil map makes no round.
abbrev pub no_other : Option Annotations → Bool
no_other none = true
no_other (some m) = only_created m

module _ {D : Type 0} where
  -- `LayoutWithChildren`
  unfoldable pub layout_with_children : List (Descriptor D) → LayoutIndexOpt D
  layout_with_children children ic = record ic { children = ic.children ++ children }

  -- `for _, opt := range opts { opt(&conf) }`
  unfoldable pub apply_opts : List (LayoutIndexOpt D) → LayoutIndexConf D
  apply_opts opts = foldl (λ conf opt. opt conf) (record { children = [] }) opts

  unfoldable pub add_children : LayoutIndex D → List (Descriptor D) → LayoutIndex D
  add_children li children = record li { child_manifests = li.child_manifests ++ children }

  abbrev pub with_manifests : LayoutIndex D → List (Descriptor D) → LayoutIndex D
  with_manifests li ms = record li { index = record (li.index) { manifests = ms } }

  unfoldable pub annotations_empty : Descriptor D → Bool
  annotations_empty d = no_other d.annotations

  abbrev pub has_tag : String → Descriptor D → Bool
  has_tag t c = annotation_val c annot_ref_name == t

  abbrev pub has_subject : String → Descriptor D → Bool
  has_subject s c = annotation_val c annot_referrer_subject == s

  -- `delete(c.Annotations, AnnotRefName)`
  unfoldable pub drop_tag : Descriptor D → Descriptor D
  drop_tag c = record c { annotations = Option.map (GoMap.delete annot_ref_name) c.annotations }

module _ {D : Type 0} ⦃e : Comparable D⦄ where
  abbrev pub has_digest : D → Descriptor D → Bool
  has_digest dig c = c.digest == dig

  -- One round of the loop over `conf.children`: the manifests and the children after it.
  unfoldable pub move_child :
      List (Descriptor D) × List (Descriptor D)
      → Descriptor D
      → List (Descriptor D) × List (Descriptor D)
  move_child (ms, cs) child =
      elim (index_func (λ cur. cur.digest == child.digest && annotations_empty cur) ms) [
        | none ↦ (ms, cs)
        | some mi ↦ (delete_at ms mi, cs ++ child ∷ [])
      ]

  unfoldable pub move_children :
      List (Descriptor D)
      → List (Descriptor D) × List (Descriptor D)
      → List (Descriptor D) × List (Descriptor D)
  move_children [] p = p
  move_children (child ∷ rest) p = move_children rest (move_child p child)

  -- The body of the loop that untags, at an entry `cur` found at `mi`: a tag on another digest goes.
  unfoldable pub untag_entry :
      String → D → List (Descriptor D) → ℕ → Descriptor D → List (Descriptor D)
  untag_entry tag dig ms mi cur =
      if not (cur.digest == dig) && has_tag tag cur
      then (if any (λ c. c.digest == cur.digest && not (has_tag tag c)) ms
          then delete_at ms mi
          else set ms mi (drop_tag cur))
      else ms

  unfoldable pub untag_at : String → D → List (Descriptor D) → ℕ → List (Descriptor D)
  untag_at tag dig ms mi = elim (get_elem? ms mi) [
    | none ↦ ms
    | some cur ↦ untag_entry tag dig ms mi cur
  ]

  -- The loop itself, from the tail: `n` entries are left to visit, at the indices below `n`.
  unfoldable pub untag_loop : String → D → ℕ → List (Descriptor D) → List (Descriptor D)
  untag_loop tag dig zero ms = ms
  untag_loop tag dig (suc mi) ms = untag_loop tag dig mi (untag_at tag dig ms mi)

  -- `if tag != "" { … }` round the loop
  unfoldable pub untag : String → D → List (Descriptor D) → List (Descriptor D)
  untag tag dig ms = if tag == "" then ms else untag_loop tag dig (length ms) ms

  -- The entry that `AddDesc` reuses: any of the digest if untagged, else one with no tag or this.
  unfoldable pub compatible : String → D → Descriptor D → Bool
  compatible tag dig cur =
      cur.digest == dig && (tag == "" || annotations_empty cur || has_tag tag cur)

  -- The update of a compatible entry at `mi`: a tag is added to an entry without annotations.
  unfoldable pub retag_at : String → Descriptor D → List (Descriptor D) → ℕ → List (Descriptor D)
  retag_at tag d ms mi = elim (get_elem? ms mi) [
    | none ↦ ms
    | some cur ↦ if not (tag == "") && annotations_empty cur then set ms mi d else ms
  ]

  unfoldable pub place : String → Descriptor D → List (Descriptor D) → List (Descriptor D)
  place tag d ms = elim (index_func (compatible tag d.digest) ms) [
    | none ↦ ms ++ d ∷ []
    | some mi ↦ retag_at tag d ms mi
  ]

  -- The referrers response replaces the one for the same subject.
  unfoldable pub place_referrer : String → Descriptor D → List (Descriptor D) → List (Descriptor D)
  place_referrer subject d ms = elim (index_func (has_subject subject) ms) [
    | none ↦ ms ++ d ∷ []
    | some mi ↦ set ms mi d
  ]
