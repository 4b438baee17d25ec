-- ===== src/Blobs/Uploads.antt =====
-- What the end of an upload stores (blob.go, over internal/store/mem.go).
use olareg.Shared.{
  ℕ, List, [], ◌∷◌, ◌++◌, none, true, ◌||◌, ◌≡◌, refl, sym, ap, ◌∙◌, Comparable, ◌==◌, ==_iff,
  arith, Option-cases, inl, inr, string_comparable,
}
use olareg.Types.Error.{ok, Result-cases}
use olareg.Types.Digest.{Bytes}
use olareg.Store.{WriterLib, Verifies}
use olareg.Store.Mem.{MemRepo, blob_get, load, load_file}
use olareg.Store.Upload.{MemRepoUpload, cancel, write, verify, close, writer_digest}
use olareg.Store.System.{IsHashed}
use olareg.Store.Reads.{read, SumsName}
use olareg.Blobs.{Body}
use olareg.Blobs.Handlers.{copy_chunks, copy}

-- What a body has brought when it ends without an error.
abbrev pub joined : List (ℕ × Bytes) → Bytes
joined [] = []
joined ((now, p) ∷ rest) = p ++ joined rest

pub append-append : (xs ys zs : Bytes) → (xs ++ ys) ++ zs ≡ xs ++ (ys ++ zs)
append-append [] ys zs = refl
append-append (x ∷ xs) ys zs = ap (λ r. x ∷ r) (append-append xs ys zs)

pub append_nil : (xs : Bytes) → xs ++ [] ≡ xs
append_nil [] = refl
append_nil (x ∷ xs) = ap (λ r. x ∷ r) (append_nil xs)

module _ {D A : Type 0} ⦃e : Comparable D⦄ where
  -- What a copy leaves of an upload: more bytes, and all else as it was.
  pub record Grows (u : MemRepoUpload D A) (p : Bytes) (u' : MemRepoUpload D A) : Type 0 where
    pub buffer : u'.buffer ≡ u.buffer ++ p
    pub hashed : u'.w.hashed ≡ u.w.hashed ++ p
    pub algo : u'.w.algo ≡ u.w.algo
    pub alg : u'.alg ≡ u.alg
    pub expect : u'.expect ≡ u.expect
    pub session : u'.session_id ≡ u.session_id

  Grows-Grows :
      {u v w : MemRepoUpload D A} {p q : Bytes} → Grows u p v → Grows v q w → Grows u (p ++ q) w
  Grows-Grows {u} {p} {q} g h = record {
    buffer = h.buffer ∙ ap (λ b. b ++ q) g.buffer ∙ append-append u.buffer p q;
    hashed = h.hashed ∙ ap (λ b. b ++ q) g.hashed ∙ append-append u.w.hashed p q;
    algo = h.algo ∙ g.algo;
    alg = h.alg ∙ g.alg;
    expect = h.expect ∙ g.expect;
    session = h.session ∙ g.session;
  }

  pub write-Grows :
      (now : ℕ) (p : Bytes) (mr : MemRepo D) (u : MemRepoUpload D A) (n : ℕ)
      → (write now p mr u).1 ≡ ok n
      → Grows u p (write now p mr u).0.1
  unfolding write
  write-Grows now p mr u n h = record {
    buffer = ground arith;
    hashed = ground arith;
    algo = ground arith;
    alg = ground arith;
    expect = ground arith;
    session = ground arith;
  }

  pub copy_chunks-Grows :
      (ps : List (ℕ × Bytes)) (mr : MemRepo D) (u : MemRepoUpload D A)
      → (copy_chunks ps mr u).1 ≡ none
      → Grows u (joined ps) (copy_chunks ps mr u).0.1
  unfolding copy_chunks
  copy_chunks-Grows [] mr u h = record {
    buffer = sym (append_nil u.buffer);
    hashed = sym (append_nil u.w.hashed);
    algo = refl;
    alg = refl;
    expect = refl;
    session = refl;
  }
  copy_chunks-Grows ((now, p) ∷ ps) mr u h = elim (Result-cases (write now p mr u).1) [
    | inl (x, q) ↦ ground arith
    | inr (n, q) ↦
        let g = write-Grows now p mr u n q in
        let r = copy_chunks-Grows ps (write now p mr u).0.0 (write now p mr u).0.1 (ground arith) in
        rw (q, copy_chunks) (Grows-Grows g r)
  ]

  pub copy-Grows :
      (body : Body) (mr : MemRepo D) (u : MemRepoUpload D A)
      → (copy body mr u).1 ≡ none
      → Grows u (joined body.chunks) (copy body mr u).0.1
  unfolding copy
  copy-Grows body mr u h = elim (Option-cases (copy_chunks body.chunks mr u).1) [
    | inr (x, q) ↦ ground arith
    | inl q ↦ rw (q, copy) (copy_chunks-Grows body.chunks mr u q)
  ]

  pub Grows-IsHashed : {u v : MemRepoUpload D A} {p : Bytes} → Grows u p v → IsHashed u → IsHashed v
  Grows-IsHashed {p} g h = g.hashed ∙ ap (λ b. b ++ p) h ∙ sym g.buffer

module _ {D A : Type 0} ⦃e : Comparable D⦄ ⦃f : Comparable A⦄ (lib : WriterLib D A) where
  pub read-write :
      (now : ℕ) (p : Bytes) (j : D) (mr : MemRepo D) (u : MemRepoUpload D A)
      → read lib.digests j (write now p mr u).0.0 ≡ read lib.digests j mr
  unfolding write blob_get load load_file
  read-write now p j mr u = ground arith

  read-copy_chunks :
      (ps : List (ℕ × Bytes)) (j : D) (mr : MemRepo D) (u : MemRepoUpload D A)
      → read lib.digests j (copy_chunks ps mr u).0.0 ≡ read lib.digests j mr
  unfolding copy_chunks
  read-copy_chunks [] j mr u = refl
  read-copy_chunks ((now, p) ∷ ps) j mr u =
      let r = (write now p mr u).0 in
      ground (arith, read-write now p j mr u, read-copy_chunks ps j r.0 r.1)

  pub read-copy :
      (body : Body) (j : D) (mr : MemRepo D) (u : MemRepoUpload D A)
      → read lib.digests j (copy body mr u).0.0 ≡ read lib.digests j mr
  unfolding copy
  read-copy body j mr u = ground (arith, read-copy_chunks body.chunks j mr u)

  pub read-cancel :
      (j : D) (mr : MemRepo D) (u : MemRepoUpload D A)
      → read lib.digests j (cancel mr u).0 ≡ read lib.digests j mr
  unfolding cancel blob_get load load_file
  read-cancel j mr u = ground arith

  -- A digest that `Verify` accepts is that of the writer it leaves, and of the buffer.
  pub verify-sum :
      (d : D) (u : MemRepoUpload D A)
      → Verifies lib
      → SumsName lib
      → IsHashed u
      → (verify lib d u).1 ≡ none
      → (writer_digest lib (verify lib d u).0 ≡ ok d)
        × ((lib.sum (lib.algorithm d) u.buffer ≡ ok d)
            × (((verify lib d u).0.buffer ≡ u.buffer) × ((verify lib d u).0.expect ≡ u.expect)))
  unfolding verify
  verify-sum d u v n h q =
      ground
        (arith, v u.w.algo u.w.hashed d, v (lib.algorithm d) u.buffer d, n u.w.algo u.w.hashed d, h)

  pub close-none :
      (now : ℕ) (d : D) (mr : MemRepo D) (u : MemRepoUpload D A)
      → Verifies lib
      → writer_digest lib u ≡ ok d
      → (close lib now mr u).1 ≡ none
      → (lib.digests.is_zero u.expect || u.expect == d) ≡ true
  unfolding close
  close-none now d mr u v h q = ground (arith, ==_iff u.expect d, v u.w.algo u.w.hashed u.expect)
