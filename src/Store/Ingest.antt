-- ===== src/Store/Ingest.antt =====
-- internal/store/store.go: how the ingest of an index checks a list of referrers that a fallback tag
-- names, and takes entries of the same digest from a list.
pub mod Entries
pub mod Index
pub mod Fuel
mod Tests
use olareg.Shared.{
  ℕ, zero, suc, ◌+◌, ◌≤◌, String, List, [], ◌∷◌, ◌++◌, Option, none, some, Bool, true, false, ◌&&◌,
  ◌||◌, not, ◌≡◌, refl, ap, sym, ◌∙◌, Comparable, ◌==◌, ==_iff, string_comparable, nat_eqb, arith,
  if◌then◌else◌, Bool-cases, Option-cases, inl, inr,
}
use olareg.Shared.GoMap
use olareg.Shared.GoMap.{GoMap}
use olareg.Shared.Slices.{length, any, count_p}
use olareg.Types.Error.{Error, Result, ok, err, ◌>>=◌}
use olareg.Types.Digest.{DigestLib, Bytes}
use olareg.Types.Descriptor.{Descriptor, Annotations, annotation_at, text_at}
use olareg.Types.Json.{Json}
use olareg.Types.Referrer.{manifest_referrer_descriptor}
use olareg.Types.Layout.{has_digest}
use olareg.Store.Collect.{Repo, member, add_member}

-- A nil map has no keys.
abbrev map_keys : Option Annotations → Annotations
map_keys none = []
map_keys (some m) = m

-- `for k, v := range refDesc.Annotations { if desc.Annotations[k] != v … }`
unfoldable pub has_all : Option Annotations → Annotations → Bool
has_all m [] = true
has_all m ((k, v) ∷ rest) = let others = has_all m rest in annotation_at m k == v && others

module _ {D : Type 0} where
  -- The entry of a list is what its manifest says.
  unfoldable pub same_referrer : Descriptor D → Descriptor D → Bool
  same_referrer desc ref =
      desc.media_type == ref.media_type
      && (nat_eqb desc.size ref.size
          && (desc.artifact_type == ref.artifact_type
              && (nat_eqb (length (map_keys desc.annotations)) (length (map_keys ref.annotations))
                  && has_all desc.annotations (map_keys ref.annotations))))

  -- `rl[i] = rl[len(rl)-1]; rl = rl[:len(rl)-1]` for what stands behind the index.
  unfoldable pub last_first : List (Descriptor D) → List (Descriptor D)
  last_first [] = []
  last_first (x ∷ xs) = elim (last_first xs) [ [] ↦ x ∷ [] | l ∷ ls ↦ l ∷ x ∷ ls ]

-- What the loop over the entries knows: the subject, whether the list is valid, and the referrers.
pub record Responses (D : Type 0) : Type 0 where
  pub subject : D
  pub valid : Bool
  pub lists : GoMap D (List (Descriptor D))

module _ {D : Type 0} ⦃e : Comparable D⦄ where
  abbrev responses_at : D → GoMap D (List (Descriptor D)) → List (Descriptor D)
  responses_at d m = elim (GoMap.lookup d m) [ none ↦ [] | some ds ↦ ds ]

  -- The body of the loop, once the manifest of the entry is read, if it can be.
  unfoldable pub check_entry :
      DigestLib D → Descriptor D → Result (Descriptor D × Descriptor D) → Responses D → Responses D
  check_entry lib desc (err _) v = record v { valid = false }
  check_entry lib desc (ok (subj, ref)) v =
      let first = lib.is_zero v.subject in
      record {
        subject = if first then subj.digest else v.subject;
        valid = v.valid && ((first || v.subject == subj.digest) && same_referrer desc ref);
        lists = GoMap.put subj.digest (responses_at subj.digest v.lists ++ ref ∷ []) v.lists;
      }

  -- The loop of `referrerListDedup` on what stands before and behind the index, with `seen`.
  unfoldable pub dedup_loop :
      ℕ → List D → List (Descriptor D) → List (Descriptor D) → List (Descriptor D)
  dedup_loop zero seen kept rest = kept ++ rest
  dedup_loop (suc n) seen kept [] = kept
  dedup_loop (suc n) seen kept (x ∷ xs) =
      let again = dedup_loop n seen kept (last_first xs) in
      let next = dedup_loop n (add_member x.digest seen) (kept ++ x ∷ []) xs in
      if member x.digest seen then again else next

  -- `referrerListDedup`
  unfoldable pub referrer_list_dedup : List (Descriptor D) → List (Descriptor D)
  referrer_list_dedup rl = dedup_loop (length rl) [] [] rl

module _ {R D : Type 0} ⦃e : Comparable D⦄ (repo : Repo R D) (lib : DigestLib D)
    (json : Json D) where
  unfoldable pub check_entries : List (Descriptor D) → R → Responses D → R × Responses D
  check_entries [] r v = (r, v)
  check_entries (d ∷ ds) r v =
      let got = repo.get d.digest r in
      check_entries ds got.0
        (check_entry lib d (got.1 >>= (λ raw. manifest_referrer_descriptor lib json raw d)) v)

  -- `indexValidReferrer`
  unfoldable pub index_valid_referrer : List (Descriptor D) → R → R × Responses D
  index_valid_referrer ds r =
      let start : Responses D = record { subject = lib.zero_digest; valid = true; lists = [] } in
      let found = check_entries ds r start in
      (found.0, if found.1.valid then found.1 else record (found.1) { subject = lib.zero_digest })
