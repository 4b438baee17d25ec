-- ===== src/Store/Content.antt =====
-- Every blob of a repository in memory is stored under its digest, whatever operations run on it and
-- on its uploads (internal/store/mem.go).
use olareg.Shared.{
  ℕ, String, List, [], ◌∷◌, none, some, not, ◌&&◌, ◌≡◌, refl, ap, subst, sym, ◌∙◌, Comparable, ◌==◌,
  ==_iff, arith, Option-cases, Bool-cases, inl, inr,
}
use olareg.Shared.GoMap
use olareg.Shared.GoMap.{lookup-put, lookup-delete}
use olareg.Shared.Elements.{get_elem?-set, get_elem?-append}
use olareg.Shared.Slices.{length, get_elem?}
use olareg.Types.Error.{Result, ok, err, Result-cases}
use olareg.Types.Digest.{Bytes, DigestLib}
use olareg.Types.Descriptor.{Descriptor}
use olareg.Types.Layout.{Clock, LayoutIndexOpt}
use olareg.Store.{WriterLib, BlobOpt}
use olareg.Store.Mem.{
  MemRepo, MemRepoBlob, index_insert, index_remove, load_file, load, blob_get, blob_meta, drop_blob,
  blob_delete, blob_session, stamped, Prune, by_age, by_count, prune, fire_timer, run_pruning,
}
use olareg.Store.Upload.{
  MemRepoUpload, upload_blob, cancel, write, change_algorithm, verify, store_upload, close,
  open_session, blob_create, writer_digest, writer_verify,
}
use olareg.Store.System.{
  IsAddressed, IsSound, HasDigest, System, Op, insert_op, remove_op, get_op, meta_op, delete_op,
  session_op, create_op, write_op, close_op, cancel_op, change_op, verify_op, prune_op, IsHashed,
  step, run, at, add_upload, with_repo, with_upload,
}

module _ {D : Type 0} ⦃e : Comparable D⦄ where
  -- No blob is new, and the directory is the same.
  pub record Keeps (old : MemRepo D) (new : MemRepo D) : Type 0 where
    pub blobs :
        (d : D) (b : MemRepoBlob)
        → GoMap.lookup d new.blobs ≡ some (some b)
        → GoMap.lookup d old.blobs ≡ some (some b)
    pub path : new.path ≡ old.path

  stamped-Keeps : (now : ℕ) (mr : MemRepo D) → Keeps mr (stamped now mr)
  stamped-Keeps now mr = record { blobs = λ d b h. h; path = refl }

  index_insert-Keeps :
      (clock : Clock) (now : ℕ) (desc : Descriptor D) (opts : List (LayoutIndexOpt D))
      (mr : MemRepo D)
      → Keeps mr (index_insert clock now desc opts mr).0
  unfolding index_insert
  index_insert-Keeps clock now desc opts mr = record {
    blobs = λ d b h. ground arith;
    path = ground arith;
  }

  index_remove-Keeps :
      (clock : Clock) (now : ℕ) (desc : Descriptor D) (mr : MemRepo D)
      → Keeps mr (index_remove clock now desc mr).0
  unfolding index_remove
  index_remove-Keeps clock now desc mr = record {
    blobs = λ d b h. ground arith;
    path = ground arith;
  }

  load-Keeps : (lib : DigestLib D) (d : D) (mr : MemRepo D) → Keeps mr (load lib d mr).0
  unfolding load load_file
  load-Keeps lib d mr = record {
    blobs = λ j b h. ground (arith, lookup-put d j none mr.blobs);
    path = ground arith;
  }

  blob_delete-Keeps :
      (lib : DigestLib D) (now : ℕ) (d : D) (mr : MemRepo D) → Keeps mr (blob_delete lib now d mr).0
  unfolding blob_delete drop_blob
  blob_delete-Keeps lib now d mr = record {
    blobs = λ j b h. ground (arith, lookup-put d j none mr.blobs, lookup-delete d j mr.blobs);
    path = ground arith;
  }

  blob_get-Keeps : (lib : DigestLib D) (d : D) (mr : MemRepo D) → Keeps mr (blob_get lib d mr).0
  unfolding blob_get
  blob_get-Keeps lib d mr = load-Keeps lib d mr

  blob_meta-Keeps : (lib : DigestLib D) (d : D) (mr : MemRepo D) → Keeps mr (blob_meta lib d mr).0
  unfolding blob_meta
  blob_meta-Keeps lib d mr = load-Keeps lib d mr

  blob_session-Keeps :
      (now : ℕ) (id : String) (mr : MemRepo D) → Keeps mr (blob_session now id mr).0
  unfolding blob_session
  blob_session-Keeps now id mr = record { blobs = λ d b h. h; path = refl }

  prune-Keeps : (p : Prune) (mr : MemRepo D) → Keeps mr (prune p mr)
  unfolding prune fire_timer run_pruning
  prune-Keeps (by_age now order) mr = record { blobs = λ d b h. ground arith; path = ground arith }
  prune-Keeps (by_count now sorted) mr = record {
    blobs = λ d b h. ground arith;
    path = ground arith;
  }

module _ {D A : Type 0} ⦃e : Comparable D⦄ where
  cancel-Keeps : (mr : MemRepo D) (u : MemRepoUpload D A) → Keeps mr (cancel mr u).0
  unfolding cancel
  cancel-Keeps mr u = record { blobs = λ d b h. h; path = refl }

  write-Keeps :
      (now : ℕ) (p : Bytes) (mr : MemRepo D) (u : MemRepoUpload D A)
      → Keeps mr (write now p mr u).0.0
  unfolding write
  write-Keeps now p mr u = record { blobs = λ d b h. ground arith; path = ground arith }

  blob_create-Keeps :
      (lib : WriterLib D A) (now ref : ℕ) (session : Result String) (opts : List (BlobOpt D A))
      (mr : MemRepo D)
      → Keeps mr (blob_create lib now ref session opts mr).0
  unfolding blob_create open_session
  blob_create-Keeps lib now ref session opts mr = record {
    blobs = λ d b h. ground arith;
    path = ground arith;
  }

  write-IsHashed :
      (now : ℕ) (p : Bytes) (mr : MemRepo D) (u : MemRepoUpload D A)
      → IsHashed u
      → IsHashed (write now p mr u).0.1
  unfolding write
  write-IsHashed now p mr u h = ground arith

  blob_create-IsHashed :
      (lib : WriterLib D A) (now ref : ℕ) (session : Result String) (opts : List (BlobOpt D A))
      (mr : MemRepo D) (u : MemRepoUpload D A)
      → (blob_create lib now ref session opts mr).1 ≡ ok u
      → IsHashed u
  unfolding blob_create open_session
  blob_create-IsHashed lib now ref session opts mr u h = ground arith

module _ {D A : Type 0} ⦃e : Comparable D⦄ ⦃f : Comparable A⦄ (lib : WriterLib D A) where
  change_algorithm-IsHashed :
      (a : A) (u : MemRepoUpload D A) → IsHashed u → IsHashed (change_algorithm lib a u).0
  unfolding change_algorithm
  change_algorithm-IsHashed a u h = ground arith

  verify-IsHashed : (d : D) (u : MemRepoUpload D A) → IsHashed u → IsHashed (verify lib d u).0
  unfolding verify
  verify-IsHashed d u h = ground arith

  Keeps-IsAddressed :
      {old new : MemRepo D} → Keeps old new → IsAddressed lib old → IsAddressed lib new
  Keeps-IsAddressed k s = record {
    stored = λ d b h. s.stored d b (k.blobs d b h);
    files = λ dir d b h g. s.files dir d b (sym k.path ∙ h) g;
  }

  store_upload-IsAddressed :
      (now : ℕ) (d : D) (mr : MemRepo D) (u : MemRepoUpload D A)
      → HasDigest lib d u.buffer
      → IsAddressed lib mr
      → IsAddressed lib (store_upload now d mr u).0
  unfolding store_upload cancel
  store_upload-IsAddressed now d mr u g s = record {
    stored = λ j b h. elim (Bool-cases (d == j)) [
      | inl q ↦
          let same : u.buffer ≡ b.bytes =
            ground (arith, lookup-put d j (some (upload_blob now u)) mr.blobs) in
          (g.0, ap (lib.sum g.0) (sym same) ∙ g.1 ∙ ap ok ((==_iff d j).0 q))
      | inr q ↦ s.stored j b (ground (arith, lookup-put d j (some (upload_blob now u)) mr.blobs))
    ];
    files = λ dir j b h q. s.files dir j b h q;
  }

  close-IsAddressed :
      (now : ℕ) (mr : MemRepo D) (u : MemRepoUpload D A)
      → IsHashed u
      → IsAddressed lib mr
      → IsAddressed lib (close lib now mr u).0
  unfolding close
  close-IsAddressed now mr u h s =
      elim (Bool-cases (not (lib.digests.is_zero u.expect) && not (writer_verify lib u.expect u))) [
        | inl q ↦ rw (q, close) s
        | inr q ↦ elim (Result-cases (writer_digest lib u)) [
          | inl (x, g) ↦ rw (q, g, close) (Keeps-IsAddressed (stamped-Keeps now mr) s)
          | inr (d, g) ↦
              rw (q, g, close)
                (store_upload-IsAddressed now d (stamped now mr) u
                  (u.w.algo, ap (lib.sum u.w.algo) (sym h) ∙ g)
                  (Keeps-IsAddressed (stamped-Keeps now mr) s))
        ]
      ]

  load-HasDigest :
      (d : D) (mr : MemRepo D) (b : MemRepoBlob)
      → IsAddressed lib mr
      → (load lib.digests d mr).1 ≡ ok b
      → HasDigest lib d b.bytes
  unfolding load load_file
  load-HasDigest d mr b s h = elim (Bool-cases (lib.digests.is_zero d)) [
    | inl z ↦ ground arith
    | inr z ↦ elim (Option-cases (GoMap.lookup d mr.blobs)) [
      | inr (o, q) ↦ s.stored d b (ground arith)
      | inl q ↦ elim (Option-cases mr.path) [
        | inl p ↦ ground arith
        | inr (dir, p) ↦ s.files dir d b p (ground arith)
      ]
    ]
  ]

  read-HasDigest :
      (d : D) (mr : MemRepo D) (bs : Bytes)
      → IsAddressed lib mr
      → (blob_get lib.digests d mr).1 ≡ ok bs
      → HasDigest lib d bs
  unfolding blob_get
  read-HasDigest d mr bs s h = elim (Result-cases (load lib.digests d mr).1) [
    | inl (x, g) ↦ ground arith
    | inr (b, g) ↦
        let same : b.bytes ≡ bs = ground arith in
        subst (λ x. HasDigest lib d x) same (load-HasDigest d mr b s g)
  ]

  with_repo-IsSound :
      {mr : MemRepo D} (s : System D A)
      → IsSound lib s
      → IsAddressed lib mr
      → IsSound lib (with_repo mr s)
  with_repo-IsSound s h g = record { addressed = g; hashed = h.hashed }

  with_upload-IsSound :
      (ref : ℕ) (u : MemRepoUpload D A) (s : System D A)
      → IsSound lib s
      → IsHashed u
      → IsSound lib (with_upload ref u s)
  with_upload-IsSound ref u s h g = record {
    addressed = h.addressed;
    hashed = λ i v q. elim (get_elem?-set s.heap ref i u v q) [
      | inl same ↦ subst (λ x. IsHashed x) (sym same) g
      | inr old ↦ h.hashed i v old
    ];
  }

  add_upload-IsSound :
      (r : MemRepo D × Result (MemRepoUpload D A)) (s : System D A)
      → IsAddressed lib r.0
      → ((u : MemRepoUpload D A) → r.1 ≡ ok u → IsHashed u)
      → IsSound lib s
      → IsSound lib (add_upload r s)
  unfolding add_upload
  add_upload-IsSound (mr, err x) s g k h = record { addressed = g; hashed = h.hashed }
  add_upload-IsSound (mr, ok u) s g k h = record {
    addressed = g;
    hashed = λ i v q. elim (get_elem?-append s.heap u v i q) [
      | inl same ↦ subst (λ x. IsHashed x) (sym same) (k u refl)
      | inr old ↦ h.hashed i v old
    ];
  }

  at-IsSound :
      (ref : ℕ) (f : MemRepoUpload D A → System D A) (s : System D A)
      → ((u : MemRepoUpload D A) → IsHashed u → IsSound lib (f u))
      → IsSound lib s
      → IsSound lib (at ref f s)
  unfolding at
  at-IsSound ref f s k h = elim (Option-cases (get_elem? s.heap ref)) [
    | inl q ↦ rw (q, at) h
    | inr (u, q) ↦ rw (q, at) (k u (h.hashed ref u q))
  ]

  step-IsSound : (o : Op D A) (s : System D A) → IsSound lib s → IsSound lib (step lib o s)
  unfolding step
  step-IsSound (insert_op clock now desc opts) s h =
      with_repo-IsSound s h
        (Keeps-IsAddressed (index_insert-Keeps clock now desc opts s.repo) h.addressed)
  step-IsSound (remove_op clock now desc) s h =
      with_repo-IsSound s h
        (Keeps-IsAddressed (index_remove-Keeps clock now desc s.repo) h.addressed)
  step-IsSound (get_op d) s h =
      with_repo-IsSound s h (Keeps-IsAddressed (blob_get-Keeps lib.digests d s.repo) h.addressed)
  step-IsSound (meta_op d) s h =
      with_repo-IsSound s h (Keeps-IsAddressed (blob_meta-Keeps lib.digests d s.repo) h.addressed)
  step-IsSound (delete_op now d) s h =
      with_repo-IsSound s h
        (Keeps-IsAddressed (blob_delete-Keeps lib.digests now d s.repo) h.addressed)
  step-IsSound (session_op now id) s h =
      with_repo-IsSound s h (Keeps-IsAddressed (blob_session-Keeps now id s.repo) h.addressed)
  step-IsSound (create_op now session opts) s h =
      let ref = length s.heap in
      add_upload-IsSound (blob_create lib now ref session opts s.repo) s
        (Keeps-IsAddressed (blob_create-Keeps lib now ref session opts s.repo) h.addressed)
        (blob_create-IsHashed lib now ref session opts s.repo) h
  step-IsSound (write_op now p ref) s h =
      at-IsSound ref _ s
        (λ u g.
          with_upload-IsSound ref (write now p s.repo u).0.1
            (with_repo (write now p s.repo u).0.0 s)
            (with_repo-IsSound s h (Keeps-IsAddressed (write-Keeps now p s.repo u) h.addressed))
            (write-IsHashed now p s.repo u g))
        h
  step-IsSound (close_op now ref) s h =
      at-IsSound ref _ s
        (λ u g. with_repo-IsSound s h (close-IsAddressed now s.repo u g h.addressed)) h
  step-IsSound (cancel_op ref) s h =
      at-IsSound ref _ s
        (λ u g. with_repo-IsSound s h (Keeps-IsAddressed (cancel-Keeps s.repo u) h.addressed)) h
  step-IsSound (change_op a ref) s h =
      at-IsSound ref _ s
        (λ u g.
          with_upload-IsSound ref (change_algorithm lib a u).0 s h
            (change_algorithm-IsHashed a u g))
        h
  step-IsSound (verify_op d ref) s h =
      at-IsSound ref _ s
        (λ u g. with_upload-IsSound ref (verify lib d u).0 s h (verify-IsHashed d u g)) h
  step-IsSound (prune_op p) s h =
      with_repo-IsSound s h (Keeps-IsAddressed (prune-Keeps p s.repo) h.addressed)

  pub run-IsSound :
      (os : List (Op D A)) (s : System D A) → IsSound lib s → IsSound lib (run lib os s)
  unfolding run
  run-IsSound [] s h = h
  run-IsSound (o ∷ os) s h = run-IsSound os (step lib o s) (step-IsSound o s h)

  -- Whatever operations run, in whatever order, on a sound repository and its uploads: the content
  -- that a read of a digest then returns has that digest, under some algorithm.
  pub blob_get-run :
      (os : List (Op D A)) (s : System D A) (d : D) (bs : Bytes)
      → IsSound lib s
      → (blob_get lib.digests d (run lib os s).repo).1 ≡ ok bs
      → HasDigest lib d bs
  blob_get-run os s d bs h g =
      read-HasDigest d (run lib os s).repo bs (run-IsSound os s h).addressed g
