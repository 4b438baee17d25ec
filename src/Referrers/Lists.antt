-- ===== src/Referrers/Lists.antt =====
-- The list of the referrers of a subject after one is added or removed (referrer.go).
use olareg.Shared.{
  String, List, [], ◌∷◌, map, subst, none, some, true, false, ◌≡◌, ◌≢◌, refl, sym, ap, ◌∙◌,
  Comparable, ==_iff, string_comparable, arith, Option-cases, Bool-cases, inl, inr,
}
use olareg.Shared.GoMap
use olareg.Shared.Slices.{find?, delete_func}
use olareg.Types.Error.{ok, Result-cases}
use olareg.Types.Digest.{Bytes}
use olareg.Types.Descriptor.{Descriptor, Index, annotation_val, text_at, annot_referrer_subject}
use olareg.Types.Json.{Json}
use olareg.Types.Referrer.{has_annotation, get_by_annotation}
use olareg.Types.Layout.{
  LayoutIndexOpt, has_digest, has_subject, place_referrer, layout_with_children,
}
use olareg.Types.Layout.History.{stamp}
use olareg.Types.Layout.Lemmas.{stamp-subject, stamp-digest}
use olareg.Store.{Verifies}
use olareg.Store.Mem.{MemRepo, is_read_only, index_insert, blob_get, load, load_file}
use olareg.Store.Reads.{read}
use olareg.Store.System.{System, with_repo}
use olareg.Blobs.{BlobLib}
use olareg.Blobs.Mounts.{read-blob_get}
use olareg.Documents.{push_document}
use olareg.Documents.Stored.{NoClash, push-Reads}
use olareg.Referrers.{
  Update, empty_response, response_desc, with_entries, replace_or_append, store_response,
  old_response, read_response, referrer_add, remove_referrer, referrer_delete,
}
use olareg.Referrers.Written.{
  as_written, all_named, named_subject, is_readable, ReadsBack, all_named-replace_or_append,
  all_named-delete_func,
}
use olareg.Referrers.Entries.{
  has_annotation-subject, find?_congr, find?-place_referrer, add_desc-referrer,
}

module _ {D A : Type 0} ⦃e : Comparable D⦄ ⦃f : Comparable A⦄ (lib : BlobLib D A)
    (json : Json D) where
  -- The referrers of a subject: the entries of the list that the index names, none where there is no
  -- such list or it cannot be read.
  abbrev pub referrers_of : D → System D A → List (Descriptor D)
  referrers_of subject s = (read_response lib json subject s).1.manifests

  -- No blob clashes with a list of these entries that is to be written: what its digest reads as
  -- is that list.
  abbrev pub Free : List (Descriptor D) → MemRepo D → Type 0
  Free ds mr =
      (i : Index D) (raw : Bytes) (dig : D)
      → i.manifests ≡ ds
      → json.encode_index i ≡ ok raw
      → lib.writer.digests.from_bytes raw ≡ ok dig
      → NoClash lib dig raw mr

  abbrev name_of : D → String
  name_of subject = lib.writer.digests.to_string subject

  referrers-found :
      (subject : D) (s : System D A) (c : Descriptor D) (i : Index D) (raw : Bytes)
      (b : ReadsBack lib.writer.digests json)
      → find? (has_annotation annot_referrer_subject (name_of subject)) s.repo.index.index.manifests
        ≡ some c
      → read lib.writer.digests c.digest s.repo ≡ ok raw
      → is_readable lib.writer.digests i ≡ true
      → json.encode_index i ≡ ok raw
      → referrers_of subject s ≡ map (as_written b.order) i.manifests
  unfolding read_response get_by_annotation old_response
  referrers-found subject s c i raw b h k r q =
      let same = b.written i raw r q in ground (arith, h, k, same)

  response-subject :
      (t : String) (dig : D) (raw : Bytes)
      → annotation_val (response_desc t dig raw) annot_referrer_subject ≡ t
  unfolding annotation_val text_at GoMap.lookup
  response-subject t dig raw = refl

  -- The top index names the new list for the subject.
  insert-found :
      (up : Update) (t : String) (dig : D) (raw : Bytes) (opts : List (LayoutIndexOpt D))
      (mr : MemRepo D)
      → t ≢ ""
      → (index_insert up.clock up.now (response_desc t dig raw) opts mr).1 ≡ none
      → (c : Descriptor D) × ((c.digest ≡ dig)
          × (find?
                (has_annotation annot_referrer_subject t)
                (index_insert up.clock up.now
                  (response_desc t dig raw)
                  opts
                  mr).0.index.index.manifests
              ≡ some c))
  unfolding index_insert
  insert-found up t dig raw opts mr h k =
      let d = response_desc t dig raw in
      let named = response-subject t dig raw in
      let a = add_desc-referrer up.clock d opts mr.index (ground (arith, named, h)) in
      let own : has_subject t (stamp up.clock d) ≡ true =
        ground (arith, stamp-subject d up.clock, named, ==_iff t t) in
      let found =
        find?_congr (has_annotation annot_referrer_subject t) (has_subject t)
          (place_referrer t (stamp up.clock d) a.0) (λ c. has_annotation-subject t c h) in
      (
        stamp up.clock d,
        (
          stamp-digest d up.clock,
          elim (Bool-cases (is_read_only mr)) [
            | inl w ↦ ground arith
            | inr w ↦
                rw (w, index_insert)
                  (ap (find? (has_annotation annot_referrer_subject t))
                      (a.1 ∙ ap (λ x. place_referrer x (stamp up.clock d) a.0) named)
                    ∙ found
                    ∙ find?-place_referrer t (stamp up.clock d) a.0 own)
          ],
        ),
      )

  insert-reads :
      (up : Update) (d : Descriptor D) (opts : List (LayoutIndexOpt D)) (j : D) (mr : MemRepo D)
      → read lib.writer.digests j (index_insert up.clock up.now d opts mr).0
        ≡ read lib.writer.digests j mr
  unfolding index_insert blob_get load load_file
  insert-reads up d opts j mr = ground arith

  store-listed :
      (up : Update) (subject : D) (resp : Index D) (s : System D A)
      (b : ReadsBack lib.writer.digests json)
      → Verifies lib.writer
      → name_of subject ≢ ""
      → is_readable lib.writer.digests resp ≡ true
      → Free resp.manifests s.repo
      → (store_response lib json up subject resp s).1 ≡ none
      → referrers_of subject (store_response lib json up subject resp s).0
        ≡ map (as_written b.order) resp.manifests
  unfolding store_response
  store-listed up subject resp s b v t z n h = elim (Result-cases (json.encode_index resp)) [
    | inl (x, q) ↦ ground arith
    | inr (raw, q) ↦ elim (Result-cases (lib.writer.digests.from_bytes raw)) [
      | inl (x, g) ↦ ground arith
      | inr (dig, g) ↦
          let pushed = push_document lib up.start dig raw s in
          elim (Option-cases pushed.1) [
            | inr (x, k) ↦ ground arith
            | inl k ↦
                let opts = layout_with_children resp.manifests ∷ [] in
                let a =
                  insert-found up (name_of subject) dig raw opts pushed.0.repo t (ground arith) in
                let r = push-Reads lib up.start dig raw s v (n resp raw dig refl q g) k in
                let inserted =
                  (index_insert up.clock up.now (response_desc (name_of subject) dig raw) opts
                    pushed.0.repo).0 in
                let now : read lib.writer.digests a.0.digest inserted ≡ ok raw =
                  ap (λ j. read lib.writer.digests j inserted) a.1.0
                  ∙ insert-reads up (response_desc (name_of subject) dig raw) opts dig pushed.0.repo
                  ∙ r dig
                  ∙ rw ((==_iff dig dig).1 refl) refl in
                rw (q, g, k, store_response)
                  (referrers-found subject (with_repo inserted pushed.0) a.0 resp raw b a.1.1 now z
                    q)
          ]
    ]
  ]

  Free-blob_get :
      (ds : List (Descriptor D)) (j : D) (mr : MemRepo D)
      → Free ds mr
      → Free ds (blob_get lib.writer.digests j mr).0
  Free-blob_get ds j mr h i raw dig same q g bs k =
      h i raw dig same q g bs (sym (read-blob_get lib.writer.digests j dig mr) ∙ k)

  Free-read_response :
      (ds : List (Descriptor D)) (subject : D) (s : System D A)
      → Free ds s.repo
      → Free ds (read_response lib json subject s).0.repo
  unfolding read_response
  Free-read_response ds subject s h =
      elim (Result-cases
        (get_by_annotation annot_referrer_subject (name_of subject) s.repo.index.index)) [
          | inl (x, q) ↦ rw (q, read_response) h
          | inr (old, q) ↦ rw (q, read_response) (Free-blob_get ds old.digest s.repo h)
        ]

  entries_named :
      (i : Index D)
      → is_readable lib.writer.digests i ≡ true
      → all_named lib.writer.digests i.manifests ≡ true
  entries_named i h = ground arith

  subject_named :
      (i : Index D)
      → is_readable lib.writer.digests i ≡ true
      → named_subject lib.writer.digests i.subject ≡ true
  subject_named i h = ground arith

  readable-with :
      (i : Index D) (ds : List (Descriptor D))
      → named_subject lib.writer.digests i.subject ≡ true
      → all_named lib.writer.digests ds ≡ true
      → is_readable lib.writer.digests (with_entries i ds) ≡ true
  readable-with i ds h k = ground arith

  pub referrers_of-add :
      (up : Update) (subject : D) (desc : Descriptor D) (s : System D A)
      (b : ReadsBack lib.writer.digests json)
      → Verifies lib.writer
      → lib.writer.digests.to_string subject ≢ ""
      → lib.writer.digests.is_zero desc.digest ≡ false
      → is_readable lib.writer.digests (read_response lib json subject s).1 ≡ true
      → Free (replace_or_append desc (referrers_of subject s)) s.repo
      → (referrer_add lib json up subject desc s).1 ≡ none
      → referrers_of subject (referrer_add lib json up subject desc s).0
        ≡ map (as_written b.order) (replace_or_append desc (referrers_of subject s))
  unfolding referrer_add
  referrers_of-add up subject desc s b v t z r n h =
      let old = read_response lib json subject s in
      let ds = replace_or_append desc old.1.manifests in
      let named = readable-with old.1 ds (subject_named old.1 r) (
        all_named-replace_or_append lib.writer.digests desc old.1.manifests (entries_named old.1 r)
          z) in
      store-listed up subject (with_entries old.1 ds) old.0 b v t named
        (Free-read_response ds subject s n) h

  -- The list that Unmarshal reads is the list that a Decoder reads.
  decoded :
      (b : ReadsBack lib.writer.digests json) (raw : Bytes) (i : Index D)
      → json.decode_index raw ≡ ok i
      → is_readable lib.writer.digests (json.fill_index raw empty_response) ≡ true
      → is_readable lib.writer.digests i ≡ true
  decoded b raw i h k = rw (sym (b.entries raw i h), sym (b.subject raw i h)) k

  -- Once `referrerDelete` returns no error, the referrers of the subject are those before without the
  -- digest of the descriptor, as package json writes and reads them. The old list has no zero digest,
  -- and what the digest of a list of these entries reads as before, if anything, is that list.
  -- The text of the subject is not empty.
  pub referrers_of-delete :
      (up : Update) (subject : D) (desc : Descriptor D) (s : System D A)
      (b : ReadsBack lib.writer.digests json)
      → Verifies lib.writer
      → lib.writer.digests.to_string subject ≢ ""
      → is_readable lib.writer.digests (read_response lib json subject s).1 ≡ true
      → Free (delete_func (has_digest desc.digest) (referrers_of subject s)) s.repo
      → (referrer_delete lib json up subject desc s).1 ≡ none
      → referrers_of subject (referrer_delete lib json up subject desc s).0
        ≡ map (as_written b.order) (delete_func (has_digest desc.digest) (referrers_of subject s))
  unfolding referrer_delete remove_referrer read_response old_response delete_func
  referrers_of-delete up subject desc s b v t r n h =
      let p = has_digest desc.digest in
      elim (Result-cases
        (get_by_annotation annot_referrer_subject (name_of subject) s.repo.index.index)) [
          | inl (x, q) ↦
              let gone : (referrer_delete lib json up subject desc s).0 ≡ s = ground (arith, q) in
              let empty : referrers_of subject s ≡ [] = ground (arith, q) in
              ap (referrers_of subject) gone
              ∙ empty
              ∙ sym (ap (λ ds. map (as_written b.order) (delete_func p ds)) empty)
          | inr (old, q) ↦
              let got = blob_get lib.writer.digests old.digest s.repo in
              elim (Result-cases got.1) [
                | inl (x, g) ↦ ground (arith, q, g)
                | inr (raw, g) ↦ elim (Result-cases (json.decode_index raw)) [
                  | inl (x, k) ↦ ground (arith, q, g, k)
                  | inr (resp, k) ↦
                      let kept = delete_func p resp.manifests in
                      let before : referrers_of subject s ≡ resp.manifests =
                        ground (arith, q, g, b.entries raw resp k) in
                      let filled : (read_response lib json subject s).1
                          ≡ json.fill_index raw empty_response =
                        ground (arith, q, g) in
                      let named =
                        decoded b raw resp k
                          (subst (λ i. is_readable lib.writer.digests i ≡ true) filled r) in
                      let free : Free kept s.repo =
                        subst (λ ds. Free (delete_func p ds) s.repo) before n in
                      let l =
                        store-listed up subject (with_entries resp kept) (with_repo got.0 s) b v t
                          (readable-with resp kept (subject_named resp named) (
                            all_named-delete_func lib.writer.digests p resp.manifests
                              (entries_named resp named)))
                          (Free-blob_get kept old.digest s.repo free) (ground arith) in
                      rw (q, g, k, before, referrer_delete, remove_referrer) l
                ]
              ]
        ]
