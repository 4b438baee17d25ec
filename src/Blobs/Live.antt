-- ===== src/Blobs/Live.antt =====
-- An upload by a well-behaved client: no request of it is refused (blob.go).
use olareg.Shared.{
  ℕ, zero, suc, String, List, [], ◌∷◌, ◌++◌, none, some, true, ◌≡◌, refl, sym, ap, subst, ◌∙◌,
  Comparable, arith, string_comparable,
}
use olareg.Shared.Int.{pos}
use olareg.Shared.Slices
use olareg.Shared.Slices.{length, get_elem?}
use olareg.Types.Error.{ok}
use olareg.Store.{Verifies}
use olareg.Store.Mem.{MemRepo, blob_session}
use olareg.Store.Reads.{SumsName, verify-none}
use olareg.Store.Upload.{
  MemRepoUpload, size, cancel, verify, close, store_upload, change_algorithm, writer_digest,
}
use olareg.Store.System.{System, IsHashed, with_repo, with_upload}
use olareg.Blobs.{BlobLib, Body, created, progress, range_end, equals_size, blob_valid_range}
use olareg.Blobs.Client.{last_time}
use olareg.Blobs.Handlers.{
  copy, find_session, on_session, valid_state, append_chunk, patch_upload, finish_upload,
  store_body, match_algorithm, put_upload,
}
use olareg.Blobs.Uploads.{joined, copy-Grows, Grows-IsHashed, verify-sum}
use olareg.Blobs.Sessions.{Open, get-Open, delete-Open, copy-Open}

get_elem?-set_same :
    {T : Type 0} (xs : List T) (i : ℕ) (x y : T)
    → get_elem? xs i ≡ some x
    → get_elem? (Slices.set xs i y) i ≡ some y
unfolding get_elem? Slices.set
get_elem?-set_same [] i x y h = ground arith
get_elem?-set_same (z ∷ xs) zero x y h = refl
get_elem?-set_same (z ∷ xs) (suc i) x y h = get_elem?-set_same xs i x y h

module _ {D A : Type 0} ⦃e : Comparable D⦄ ⦃f : Comparable A⦄ (lib : BlobLib D A) where
  -- The session of an upload is open, and the upload takes any digest.
  pub record Live (id : String) (ref used age : ℕ) (u : MemRepoUpload D A) (s : System D A)
      : Type 0 where
    pub is_open : Open id ref used age s.repo
    pub at : get_elem? s.heap ref ≡ some u
    pub session : u.session_id ≡ id
    pub hashed : IsHashed u
    pub same_alg : u.w.algo ≡ u.alg
    pub any : lib.writer.digests.is_zero u.expect ≡ true

  pub find-Live :
      (now : ℕ) (id : String) (ref used age : ℕ) (u : MemRepoUpload D A) (s : System D A)
      → Live id ref used age u s
      → ((find_session now id s).1 ≡ ok (ref, u)) × Live id ref now age u (find_session now id s).0
  unfolding find_session blob_session
  find-Live now id ref used age u s l =
      let g = get-Open now id ref used age s.repo l.is_open in
      (
        ground (arith, g.0, l.at),
        record {
          is_open = g.1;
          at = l.at;
          session = l.session;
          hashed = l.hashed;
          same_alg = l.same_alg;
          any = l.any;
        },
      )

  -- The copy of a body into a live upload.
  copy-Live :
      (body : Body) (id : String) (ref used age : ℕ) (u : MemRepoUpload D A) (s : System D A)
      → body.error ≡ none
      → Live id ref used age u s
      → ((copy body s.repo u).1 ≡ none)
        × (((copy body s.repo u).0.1.buffer ≡ u.buffer ++ joined body.chunks)
            × Live id ref
                (last_time used body.chunks)
                age
                (copy body s.repo u).0.1
                (with_upload ref (copy body s.repo u).0.1 (with_repo (copy body s.repo u).0.0 s)))
  copy-Live body id ref used age u s h l =
      let c =
        copy-Open body s.repo u ref used age h
          (subst (λ i. Open i ref used age s.repo) (sym l.session) l.is_open) in
      let g = copy-Grows body s.repo u c.0 in
      let r = (copy body s.repo u).0 in
      (
        c.0,
        (
          g.buffer,
          record {
            is_open = subst (λ i. Open i ref (last_time used body.chunks) age r.0) l.session c.1;
            at = get_elem?-set_same s.heap ref u r.1 l.at;
            session = g.session ∙ l.session;
            hashed = Grows-IsHashed g l.hashed;
            same_alg = g.algo ∙ l.same_alg ∙ sym g.alg;
            any = ground (arith, g.expect, l.any);
          },
        ),
      )

  -- A state that names the bytes of the upload, in a request without a range.
  abbrev pub Fits : String → MemRepoUpload D A → Type 0
  Fits state u = lib.decode_state state ≡ some (pos (length u.buffer))

  Fits-valid_state :
      (state : String) (u : MemRepoUpload D A) → Fits state u → valid_state lib state u ≡ true
  unfolding valid_state equals_size size
  Fits-valid_state state u h = ground arith

  no_range : (n : ℕ) → blob_valid_range "" n ≡ true
  unfolding blob_valid_range
  no_range n = refl

  pub patch-Live :
      (now : ℕ) (id state : String) (body : Body) (ref used age : ℕ) (u : MemRepoUpload D A)
      (s : System D A)
      → Live id ref used age u s
      → Fits state u
      → body.error ≡ none
      → (v : MemRepoUpload D A) × ((v.buffer ≡ u.buffer ++ joined body.chunks)
          × (((patch_upload lib now id "" state body none s).1
                ≡ progress 202 (lib.encode_state (length v.buffer)) (range_end (length v.buffer)))
              × Live id ref
                  (last_time now body.chunks)
                  age
                  v
                  (patch_upload lib now id "" state body none s).0))
  unfolding patch_upload on_session append_chunk size
  patch-Live now id state body ref used age u s l h k =
      let a = find-Live now id ref used age u s l in
      let s' = (find_session now id s).0 in
      let c = copy-Live body id ref now age u s' k a.1 in
      (
        (copy body s'.repo u).0.1,
        (
          c.1.0,
          rw
              (
                a.0,
                no_range (size u),
                Fits-valid_state state u h,
                c.0,
                patch_upload,
                on_session,
                append_chunk,
              )
              (refl, c.1.1),
        ),
      )

  -- What `verify` and `match_algorithm` leave of an upload.
  verify-session :
      (d : D) (u : MemRepoUpload D A) → (verify lib.writer d u).0.session_id ≡ u.session_id
  unfolding verify
  verify-session d u = ground arith

  match-kept :
      (d : D) (u : MemRepoUpload D A)
      → IsHashed u
      → u.w.algo ≡ u.alg
      → IsHashed (match_algorithm lib d u)
        × (((match_algorithm lib d u).w.algo ≡ (match_algorithm lib d u).alg)
            × (((match_algorithm lib d u).buffer ≡ u.buffer)
                × (((match_algorithm lib d u).session_id ≡ u.session_id)
                    × ((match_algorithm lib d u).expect ≡ u.expect))))
  unfolding match_algorithm change_algorithm
  match-kept d u h k = ground arith

  close-Live :
      (now : ℕ) (d : D) (ref used age : ℕ) (mr : MemRepo D) (u : MemRepoUpload D A)
      → Open u.session_id ref used age mr
      → lib.writer.digests.is_zero u.expect ≡ true
      → writer_digest lib.writer u ≡ ok d
      → (close lib.writer now mr u).1 ≡ none
  unfolding close store_upload cancel
  close-Live now d ref used age mr u o z h =
      ground (arith, delete-Open u.session_id ref used age mr o)

  finish-Live :
      (now : ℕ) (d : D) (id : String) (ref used age : ℕ) (u : MemRepoUpload D A) (s : System D A)
      → Verifies lib.writer
      → SumsName lib.writer
      → Live id ref used age u s
      → lib.writer.sum (lib.writer.algorithm d) u.buffer ≡ ok d
      → (finish_upload lib now d ref u s).1 ≡ created d
  unfolding finish_upload
  finish-Live now d id ref used age u s v n l h =
      let g = (verify-none lib.writer d u v n l.hashed l.same_alg).1 h in
      let a = verify-sum lib.writer d u v n l.hashed g in
      let w = (verify lib.writer d u).0 in
      let o : Open w.session_id ref used age s.repo =
        subst (λ i. Open i ref used age s.repo) (sym (verify-session d u ∙ l.session)) l.is_open in
      let c =
        close-Live now d ref used age s.repo w o (ap lib.writer.digests.is_zero a.1.1.1 ∙ l.any)
          a.0 in
      rw (g, c, finish_upload) refl

  pub put-Live :
      (now later : ℕ) (id dig state : String) (body : Body) (ref used age : ℕ)
      (u : MemRepoUpload D A) (s : System D A) (d : D)
      → Verifies lib.writer
      → SumsName lib.writer
      → Live id ref used age u s
      → Fits state u
      → body.error ≡ none
      → lib.writer.digests.parse dig ≡ ok d
      → lib.writer.sum (lib.writer.algorithm d) (u.buffer ++ joined body.chunks) ≡ ok d
      → (put_upload lib now later id "" dig state body none s).1 ≡ created d
  unfolding put_upload on_session store_body
  put-Live now later id dig state body ref used age u s d v n l h k p q =
      let a = find-Live now id ref used age u s l in
      let s' = (find_session now id s).0 in
      let m = match-kept d u l.hashed l.same_alg in
      let u' = match_algorithm lib d u in
      let l' : Live id ref now age u' (with_upload ref u' s') = record {
        is_open = a.1.is_open;
        at = get_elem?-set_same s'.heap ref u u' a.1.at;
        session = m.1.1.1.0 ∙ l.session;
        hashed = m.0;
        same_alg = m.1.0;
        any = ap lib.writer.digests.is_zero m.1.1.1.1 ∙ l.any;
      } in
      let valid = Fits-valid_state state u' (h ∙ ap (λ b. some (pos (length b))) (sym m.1.1.0)) in
      let c = copy-Live body id ref now age u' (with_upload ref u' s') k l' in
      let r = (copy body s'.repo u').0 in
      let same : r.1.buffer ≡ u.buffer ++ joined body.chunks =
        c.1.0 ∙ ap (λ b. b ++ joined body.chunks) m.1.1.0 in
      rw (a.0, no_range (size u), p, valid, c.0, put_upload, on_session, store_body)
        (finish-Live later d id ref (last_time now body.chunks) age r.1 _ v n c.1.1
          (ap (lib.writer.sum (lib.writer.algorithm d)) same ∙ q))
