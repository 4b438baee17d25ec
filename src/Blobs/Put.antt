-- ===== src/Blobs/Put.antt =====
-- PUT of an upload: what every digest reads as after it (blob.go).
use olareg.Shared.{
  ℕ, String, ◌++◌, Option, none, some, Bool, true, false, ◌&&◌, ◌≡◌, ◌≢◌, refl, sym, ap, ◌∙◌,
  Comparable, ◌==◌, arith, if◌then◌else◌, Bool-cases, Option-cases, inl, inr, string_comparable,
}
use olareg.Shared.Slices.{get_elem?}
use olareg.Types.Error.{Error, ok, Result-cases}
use olareg.Types.Digest.{Bytes}
use olareg.Store.{Verifies}
use olareg.Store.Mem.{MemRepo, blob_session, blob_get, load, load_file}
use olareg.Store.Upload.{MemRepoUpload, verify, close, size, change_algorithm}
use olareg.Store.System.{System, IsHashed, IsSound, with_repo, with_upload}
use olareg.Store.Reads.{read, close-reads, SumsName}
use olareg.Response.{bare_failure}
use olareg.Blobs.{BlobLib, Body, Reply, created, failed, blob_valid_range}
use olareg.Blobs.Handlers.{
  copy, finish_upload, store_body, match_algorithm, valid_state, find_session, on_session,
  put_upload,
}
use olareg.Blobs.Uploads.{
  joined, copy-Grows, Grows-IsHashed, read-copy, read-cancel, verify-sum, close-none,
}

abbrev pub is_created : {D : Type 0} → Reply D → Bool
is_created (created d) = true
is_created _ = false

module _ {D A : Type 0} ⦃e : Comparable D⦄ ⦃f : Comparable A⦄ (lib : BlobLib D A) where
  -- A digest reads as a content, and every other digest as before.
  pub record Stores (d : D) (bs : Bytes) (old new : MemRepo D) : Type 0 where
    pub sum : lib.writer.sum (lib.writer.algorithm d) bs ≡ ok d
    pub reads :
        (j : D)
        → read lib.writer.digests j new ≡ (if d == j then ok bs else read lib.writer.digests j old)

  -- Every digest reads as before.
  abbrev pub Same : MemRepo D → MemRepo D → Type 0
  Same old new = (j : D) → read lib.writer.digests j new ≡ read lib.writer.digests j old

  Stores-Same :
      (d x : D) (bs cs p : Bytes) {old mid new : MemRepo D}
      → bs ≡ cs
      → x ≡ d
      → Same old mid
      → Stores d (bs ++ p) mid new
      → Stores x (cs ++ p) old new
  Stores-Same d x bs cs p h k m s = record {
    sum = ground (arith, s.sum);
    reads = λ j. ground (arith, s.reads j, m j);
  }

  finish-created :
      (now : ℕ) (d x : D) (ref : ℕ) (u : MemRepoUpload D A) (s : System D A)
      → Verifies lib.writer
      → SumsName lib.writer
      → IsHashed u
      → (finish_upload lib now d ref u s).1 ≡ created x
      → (x ≡ d) × Stores d u.buffer s.repo (finish_upload lib now d ref u s).0.repo
  unfolding finish_upload
  finish-created now d x ref u s v n h q = elim (Option-cases (verify lib.writer d u).1) [
    | inr (y, g) ↦ ground arith
    | inl g ↦ elim (Option-cases (close lib.writer now s.repo (verify lib.writer d u).0).1) [
      | inr (y, k) ↦ ground arith
      | inl k ↦
          let w = (verify lib.writer d u).0 in
          let a = verify-sum lib.writer d u v n h g in
          let b = close-none lib.writer now d s.repo (verify lib.writer d u).0 v a.0 k in
          (
            ground arith,
            rw (g, finish_upload)
                (record {
                  sum = a.1.0;
                  reads = λ j. ground (
                    arith,
                    close-reads lib.writer now d j s.repo (verify lib.writer d u).0 v a.0
                        (n w.w.algo w.w.hashed d a.0).1,
                    b,
                    a.1.1.0,
                  );
                }),
          )
    ]
  ]

  finish-Same :
      (now : ℕ) (d : D) (ref : ℕ) (u : MemRepoUpload D A) (s : System D A)
      → is_created (finish_upload lib now d ref u s).1 ≡ false
      → (finish_upload lib now d ref u s).1 ≢ failed (bare_failure 500)
      → Same s.repo (finish_upload lib now d ref u s).0.repo
  unfolding finish_upload
  finish-Same now d ref u s h k j = elim (Option-cases (verify lib.writer d u).1) [
    | inr (y, g) ↦ rw (g, finish_upload) (read-cancel lib.writer j s.repo (verify lib.writer d u).0)
    | inl g ↦ elim (Option-cases (close lib.writer now s.repo (verify lib.writer d u).0).1) [
      | inr (y, c) ↦ ground arith
      | inl c ↦ ground arith
    ]
  ]

  store-created :
      (now : ℕ) (body : Body) (d x : D) (ref : ℕ) (u : MemRepoUpload D A) (s : System D A)
      → Verifies lib.writer
      → SumsName lib.writer
      → IsHashed u
      → (store_body lib now body d ref u s).1 ≡ created x
      → (x ≡ d)
        × Stores d
            (u.buffer ++ joined body.chunks)
            s.repo
            (store_body lib now body d ref u s).0.repo
  unfolding store_body
  store-created now body d x ref u s v n h q = elim (Option-cases (copy body s.repo u).1) [
    | inr (y, g) ↦ ground arith
    | inl g ↦
        let grown = copy-Grows body s.repo u g in
        let r = (copy body s.repo u).0 in
        let s' : System D A = with_upload ref r.1 (with_repo r.0 s) in
        let a = finish-created now d x ref r.1 s' v n (Grows-IsHashed grown h) (ground arith) in
        (
          a.0,
          rw (g, store_body)
              (record {
                sum = ap (lib.writer.sum (lib.writer.algorithm d)) (sym grown.buffer) ∙ a.1.sum;
                reads = λ j.
                    ground (arith, a.1.reads j, grown.buffer, read-copy lib.writer body j s.repo u);
              }),
        )
  ]

  store-Same :
      (now : ℕ) (body : Body) (d : D) (ref : ℕ) (u : MemRepoUpload D A) (s : System D A)
      → is_created (store_body lib now body d ref u s).1 ≡ false
      → (store_body lib now body d ref u s).1 ≢ failed (bare_failure 500)
      → Same s.repo (store_body lib now body d ref u s).0.repo
  unfolding store_body
  store-Same now body d ref u s h k j = elim (Option-cases (copy body s.repo u).1) [
    | inr (y, g) ↦ rw (g, store_body) (read-copy lib.writer body j s.repo u)
    | inl g ↦
        let r = (copy body s.repo u).0 in
        let s' : System D A = with_upload ref r.1 (with_repo r.0 s) in
        rw (g, store_body)
          (finish-Same now d ref r.1 s' (ground arith) (ground arith) j
            ∙ read-copy lib.writer body j s.repo u)
  ]

  match-buffer :
      (d : D) (u : MemRepoUpload D A)
      → IsHashed u
      → IsHashed (match_algorithm lib d u) × ((match_algorithm lib d u).buffer ≡ u.buffer)
  unfolding match_algorithm change_algorithm
  match-buffer d u h = ground arith

  find-IsHashed :
      (now : ℕ) (id : String) (s : System D A) (ref : ℕ) (u : MemRepoUpload D A)
      → IsSound lib.writer s
      → (find_session now id s).1 ≡ ok (ref, u)
      → IsHashed u
  unfolding find_session
  find-IsHashed now id s ref u v h = elim (Result-cases (blob_session now id s.repo).1) [
    | inl (x, q) ↦ ground arith
    | inr (at, q) ↦ elim (Option-cases (get_elem? s.heap at)) [
      | inl g ↦ ground arith
      | inr (w, g) ↦ v.hashed ref u (ground arith)
    ]
  ]

  Same-find : (now : ℕ) (id : String) (s : System D A) → Same s.repo (find_session now id s).0.repo
  unfolding find_session blob_session blob_get load load_file
  Same-find now id s j = ground arith

  pub put-hashed :
      (now later : ℕ) (id range dig state : String) (body : Body) (opened : Option Error)
      (s : System D A) (ref : ℕ) (u : MemRepoUpload D A) (x : D)
      → Verifies lib.writer
      → SumsName lib.writer
      → IsHashed u
      → (find_session now id s).1 ≡ ok (ref, u)
      → (put_upload lib now later id range dig state body opened s).1 ≡ created x
      → (lib.writer.digests.parse dig ≡ ok x)
        × Stores x
            (u.buffer ++ joined body.chunks)
            s.repo
            (put_upload lib now later id range dig state body opened s).0.repo
  unfolding put_upload on_session
  put-hashed now later id range dig state body (some y) s ref u x v n i q h = ground arith
  put-hashed now later id range dig state body none s ref u x v n i q h =
      elim (Result-cases (lib.writer.digests.parse dig)) [
        | inl (y, g) ↦ ground arith
        | inr (d, g) ↦
            let u' = match_algorithm lib d u in
            elim (Bool-cases (blob_valid_range range (size u) && valid_state lib state u')) [
              | inr k ↦ ground arith
              | inl k ↦
                  let m = match-buffer d u i in
                  let s' : System D A = with_upload ref u' (find_session now id s).0 in
                  let a = store-created later body d x ref u' s' v n m.0 (ground arith) in
                  let kr : blob_valid_range range (size u) ≡ true = ground arith in
                  let ks : valid_state lib state u' ≡ true = ground arith in
                  (
                    ground arith,
                    rw (q, kr, g, ks, put_upload, on_session)
                        (Stores-Same d x u'.buffer u.buffer (joined body.chunks) m.1 a.0
                          (Same-find now id s) a.1),
                  )
            ]
      ]

  -- A PUT that answers 201 in a sound repository names the digest x of its query; x is the digest,
  -- under its own algorithm, of what the upload had and the body added, which then reads under x, and every
  -- other digest reads as before.
  pub put_upload-created :
      (now later : ℕ) (id range dig state : String) (body : Body) (opened : Option Error)
      (s : System D A) (ref : ℕ) (u : MemRepoUpload D A) (x : D)
      → Verifies lib.writer
      → SumsName lib.writer
      → IsSound lib.writer s
      → (find_session now id s).1 ≡ ok (ref, u)
      → (put_upload lib now later id range dig state body opened s).1 ≡ created x
      → (lib.writer.digests.parse dig ≡ ok x)
        × Stores x
            (u.buffer ++ joined body.chunks)
            s.repo
            (put_upload lib now later id range dig state body opened s).0.repo
  put_upload-created now later id range dig state body opened s ref u x v n i q h =
      put-hashed now later id range dig state body opened s ref u x v n
        (find-IsHashed now id s ref u i q) q h

  -- A PUT that answers neither 201 nor 500 leaves what every digest reads as.
  pub put_upload-Same :
      (now later : ℕ) (id range dig state : String) (body : Body) (opened : Option Error)
      (s : System D A)
      → is_created (put_upload lib now later id range dig state body opened s).1 ≡ false
      → (put_upload lib now later id range dig state body opened s).1 ≢ failed (bare_failure 500)
      → Same s.repo (put_upload lib now later id range dig state body opened s).0.repo
  unfolding put_upload on_session
  put_upload-Same now later id range dig state body (some y) s h k j = refl
  put_upload-Same now later id range dig state body none s h k j =
      elim (Result-cases (find_session now id s).1) [
        | inl (y, q) ↦ rw (q, put_upload, on_session) (Same-find now id s j)
        | inr ((ref, u), q) ↦ elim (Bool-cases (blob_valid_range range (size u))) [
          | inr kr ↦ rw (q, kr, put_upload, on_session) (Same-find now id s j)
          | inl kr ↦ elim (Result-cases (lib.writer.digests.parse dig)) [
            | inl (y, g) ↦ rw (q, kr, g, put_upload, on_session) (Same-find now id s j)
            | inr (d, g) ↦ elim (Bool-cases (valid_state lib state (match_algorithm lib d u))) [
              | inr ks ↦ rw (q, kr, g, ks, put_upload, on_session) (Same-find now id s j)
              | inl ks ↦
                  let u' = match_algorithm lib d u in
                  let s' : System D A = with_upload ref u' (find_session now id s).0 in
                  rw (q, kr, g, ks, put_upload, on_session)
                    (store-Same later body d ref u' s' (ground arith) (ground arith) j
                      ∙ Same-find now id s j)
            ]
          ]
        ]
      ]
