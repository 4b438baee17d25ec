-- ===== src/Store/Collect/Kept.antt =====
-- What the garbage collection keeps (internal/store/store.go), in a store whose operations change no
-- read but that of a removed blob, as a repository in memory does.
use olareg.Shared.{
  Bool, List-cases, ℕ, zero, suc, List, [], ◌∷◌, none, true, false, ◌≡◌, ◌≢◌, refl, ◌∙◌, ap,
  Comparable, Bool-cases, inl, inr, ==_iff, arith, if◌then◌else◌,
}
use olareg.Shared.GoMap.{lookup-put, lookup-delete}
use olareg.Types.Error.{Result, ok, Result-cases}
use olareg.Types.Digest.{DigestLib, Bytes}
use olareg.Types.Descriptor.{Descriptor, annotation_val, annot_referrer_subject}
use olareg.Types.Layout.{Clock, LayoutIndex}
use olareg.Config.{ConfigGc}
use olareg.Store.Mem.{
  MemRepo, load, load_file, blob_get, blob_meta, blob_delete, drop_blob, blob_list,
}
use olareg.Store.Collect.{
  Choice, kept, with_subject, left, parse_or_zero, Repo, Decoder, Marks, member, add_member,
  keep_entry, choose_response, choose, mark_choice, mark_entries,
}
use olareg.Store.Collect.Walk.{push_referrer, follow, visit, walk}
use olareg.Store.Collect.Sweep.{sweep_blob, sweep, collect, marks, no_marks}

module _ {R D : Type 0} ⦃e : Comparable D⦄ where
  -- The content that a read of a digest returns.
  abbrev pub peek : Repo R D → D → R → Result Bytes
  peek repo d r = (repo.get d r).1

  pub record IsStore (repo : Repo R D) : Type 0 where
    pub get_same : (d j : D) (r : R) → peek repo j (repo.get d r).0 ≡ peek repo j r
    pub meta_same : (d j : D) (r : R) → peek repo j (repo.meta d r).0 ≡ peek repo j r
    pub remove_other :
        (now : ℕ) (d j : D) (r : R) → d ≢ j → peek repo j (repo.remove now d r).0 ≡ peek repo j r

module _ {D : Type 0} ⦃e : Comparable D⦄ (lib : DigestLib D) where
  -- A repository in memory as a store.
  abbrev pub mem_store : Repo (MemRepo D) D
  mem_store = record {
    get = blob_get lib;
    meta = blob_meta lib;
    list = λ mr. ok (blob_list lib mr);
    remove = λ now d mr. blob_delete lib now d mr;
  }

  pub mem_store-IsStore : IsStore mem_store
  unfolding blob_get blob_meta load load_file blob_delete drop_blob
  mem_store-IsStore = record {
    get_same = λ d j mr. ground (arith, ==_iff d j, lookup-put d j none mr.blobs);
    meta_same = λ d j mr. ground (arith, ==_iff d j, lookup-put d j none mr.blobs);
    remove_other = λ now d j mr h.
        ground (arith, ==_iff d j, lookup-put d j none mr.blobs, lookup-delete d j mr.blobs);
  }

module _ {R D : Type 0} ⦃e : Comparable D⦄ {repo : Repo R D} (s : IsStore repo)
    (dec : Decoder D) where
  pub peek-visit :
      (d : Descriptor D) (j : D) (m : Marks R D)
      → peek repo j (visit repo dec d m).repo ≡ peek repo j m.repo
  unfolding visit follow push_referrer
  peek-visit d j m = ground (arith, s.get_same d.digest j m.repo)

  peek-walk :
      (fuel : ℕ) (j : D) (m : Marks R D)
      → peek repo j (walk repo dec fuel m).repo ≡ peek repo j m.repo
  unfolding walk
  peek-walk zero j m = refl
  peek-walk (suc fuel) j m = elim (List-cases m.manifests) [
    | inl q ↦ rw (q, walk) refl
    | inr (d, rest, q) ↦
        let m' : Marks R D = record m { manifests = rest } in
        rw (q, walk) (peek-walk fuel j (visit repo dec d m') ∙ peek-visit d j m')
  ]

module _ {R D : Type 0} ⦃e : Comparable D⦄ {repo : Repo R D} (s : IsStore repo) (lib : DigestLib D)
    (dec : Decoder D) (clock : Clock) (conf : ConfigGc) (now : ℕ) where
  peek-keep_entry :
      (d : Descriptor D) (j : D) (r : R)
      → peek repo j (keep_entry repo lib conf now d r).0 ≡ peek repo j r
  unfolding keep_entry
  peek-keep_entry d j r = ground (arith, s.meta_same d.digest j r)

  peek-choose_response :
      (d : Descriptor D) (dig : D) (c : Choice D) (j : D) (r : R)
      → peek repo j (choose_response repo lib conf now d dig c r).0 ≡ peek repo j r
  unfolding choose_response
  peek-choose_response d dig c j r =
      ground (arith, s.meta_same dig j r, s.meta_same d.digest j (repo.meta dig r).0)

  peek-sweep_blob :
      (seen in_index : List D) (d j : D) (r : R) (i : LayoutIndex D × Bool)
      → member j seen ≡ true
      → peek repo j (sweep_blob repo lib clock conf now seen in_index d (r, i)).0 ≡ peek repo j r
  unfolding sweep_blob
  peek-sweep_blob seen in_index d j r i h = elim (Bool-cases (member d seen)) [
    | inl q ↦ rw (q, sweep_blob) refl
    | inr q ↦
        let other_blob : d ≢ j = λ same. ground (arith, ap (λ x. member x seen) same) in
        let r' = (repo.meta d r).0 in
        ground (arith, s.meta_same d j r, s.remove_other now d j r' other_blob)
  ]

  peek-sweep :
      (seen in_index dl : List D) (j : D) (r : R) (i : LayoutIndex D × Bool)
      → member j seen ≡ true
      → peek repo j (sweep repo lib clock conf now seen in_index dl (r, i)).0 ≡ peek repo j r
  unfolding sweep
  peek-sweep seen in_index [] j r i h = refl
  peek-sweep seen in_index (d ∷ dl) j r i h =
      let next = sweep_blob repo lib clock conf now seen in_index d (r, i) in
      peek-sweep seen in_index dl j next.0 next.1 h ∙ peek-sweep_blob seen in_index d j r i h

  peek-choose :
      (d : Descriptor D) (j : D) (r : R)
      → peek repo j (choose repo lib conf now d r).0 ≡ peek repo j r
  unfolding choose
  peek-choose d j r =
      let first = keep_entry repo lib conf now d r in
      let dig = parse_or_zero lib (lib.parse (annotation_val d annot_referrer_subject)) in
      let choice : Choice D = if first.1 then kept else left in
      ground (arith, peek-keep_entry d j r, peek-choose_response d dig choice j first.0)

  peek-mark_choice :
      (d : Descriptor D) (c : Choice D) (j : D) (m : Marks R D)
      → peek repo j (mark_choice d c m).repo ≡ peek repo j m.repo
  unfolding mark_choice
  peek-mark_choice d kept j m = refl
  peek-mark_choice d (with_subject dig) j m = refl
  peek-mark_choice d left j m = refl

  peek-mark_entries :
      (ds : List (Descriptor D)) (j : D) (m : Marks R D)
      → peek repo j (mark_entries repo lib conf now ds m).repo ≡ peek repo j m.repo
  unfolding mark_entries
  peek-mark_entries [] j m = refl
  peek-mark_entries (d ∷ ds) j m =
      let r = choose repo lib conf now d m.repo in
      let m' : Marks R D = record m { repo = r.0; in_index = add_member d.digest m.in_index } in
      peek-mark_entries ds j (mark_choice d r.1 m')
      ∙ peek-mark_choice d r.1 j m'
      ∙ peek-choose d j m.repo

  -- A blob that the walk of the garbage collection has seen reads as before, whatever the collection
  -- returns.
  pub peek-collect :
      (fuel : ℕ) (index : LayoutIndex D) (j : D) (r : R)
      → member j (walk repo dec fuel (marks repo lib dec clock conf now index r)).seen ≡ true
      → peek repo j (collect repo lib dec clock conf now fuel index r).0 ≡ peek repo j r
  unfolding collect
  peek-collect fuel index j r h =
      let start = marks repo lib dec clock conf now index r in
      let m = walk repo dec fuel start in
      let first =
        peek-walk s dec fuel j start ∙ peek-mark_entries index.index.manifests j (no_marks r) in
      elim (Result-cases (repo.list m.repo)) [
        | inl (x, q) ↦ rw (q, collect) first
        | inr (dl, q) ↦
            rw (q, collect) (peek-sweep m.seen m.in_index dl j m.repo (index, false) h ∙ first)
      ]
