-- ===== src/Blobs/Mounts.antt =====
-- A mount of a blob from another repository: what every repository reads after it (blob.go).
use olareg.Shared.{
  ℕ, String, [], ◌∷◌, ◌++◌, Option, none, some, true, ◌&&◌, not, ◌≡◌, refl, ap, ◌∙◌, Comparable,
  ◌==◌, ==_iff, arith, if◌then◌else◌, Bool-cases, Option-cases, inl, inr, string_comparable,
}
use olareg.Shared.GoMap.{lookup-put}
use olareg.Types.Error.{Error, Result, ok, err, blob_exists, Result-cases}
use olareg.Types.Digest.{Bytes, DigestLib}
use olareg.Store.{Verifies, blob_with_digest}
use olareg.Store.Mem.{MemRepo, blob_get, load, load_file, has_blob}
use olareg.Store.Reads.{read, close-reads}
use olareg.Store.Upload.{MemRepoUpload, close}
use olareg.Store.System.{System, with_repo}
use olareg.Blobs.{BlobLib}
use olareg.Blobs.Handlers.{copy}
use olareg.Blobs.Posts.{
  Registry, set_system, Start, whole, create, mount_content, mount_from, mount_upload,
}
use olareg.Blobs.Uploads.{joined, append_nil, copy-Grows, read-copy, close-none}
use olareg.Blobs.Put.{Same}
use olareg.Blobs.Created.{Expects, create-Same, create-Expects, create-exists, close-expect}

joined-whole : (now : ℕ) (bs : Bytes) → joined (whole now bs).chunks ≡ bs
joined-whole now [] = refl
joined-whole now (b ∷ bs) = append_nil (b ∷ bs)

module _ {D : Type 0} ⦃e : Comparable D⦄ where
  pub read-blob_get :
      (lib : DigestLib D) (d j : D) (mr : MemRepo D)
      → read lib j (blob_get lib d mr).0 ≡ read lib j mr
  unfolding blob_get load load_file
  read-blob_get lib d j mr = ground (arith, ==_iff d j, lookup-put d j none mr.blobs)

module _ {D A : Type 0} ⦃e : Comparable D⦄ ⦃f : Comparable A⦄ (lib : BlobLib D A) where
  content-reads :
      (start : Start) (d x : D) (ref : ℕ) (u : MemRepoUpload D A) (got : Result Bytes)
      (s : System D A)
      → Verifies lib.writer
      → Expects lib d u
      → (mount_content lib start d ref u got s).1 ≡ some x
      → (x ≡ d)
        × ((j : D)
            → read lib.writer.digests j (mount_content lib start d ref u got s).0.repo
              ≡ (if d == j then got else read lib.writer.digests j s.repo))
  unfolding mount_content
  content-reads start d x ref u (err y) s v a h = ground arith
  content-reads start d x ref u (ok bs) s v a h =
      let body = whole start.later bs in
      elim (Option-cases (copy body s.repo u).1) [
        | inr (y, q) ↦ ground arith
        | inl q ↦
            let g = copy-Grows body s.repo u q in
            let r = (copy body s.repo u).0 in
            elim (Option-cases (close lib.writer start.later r.0 r.1).1) [
              | inr (y, k) ↦ ground arith
              | inl k ↦
                  let w =
                    close-expect lib start.later d r.0 r.1 v (g.expect ∙ a.expect) a.some_digest
                      k in
                  let c = close-none lib.writer start.later d r.0 r.1 v w k in
                  let same : r.1.buffer ≡ bs =
                    g.buffer
                    ∙ ap (λ b. b ++ joined body.chunks) a.empty
                    ∙ joined-whole start.later bs in
                  (
                    ground arith,
                    λ j.
                        rw (q, mount_content)
                          (ground (
                            arith,
                            close-reads lib.writer start.later d j r.0 r.1 v w a.some_digest,
                            c,
                            same,
                            read-copy lib.writer body j s.repo u,
                          )),
                  )
            ]
      ]

  set-Same :
      (tgt : String) (s : System D A) (reg : Registry D A)
      → Same lib (reg tgt).repo s.repo
      → (name : String) → Same lib (reg name).repo (set_system tgt s reg name).repo
  set-Same tgt s reg h name j = elim (Bool-cases (tgt == name)) [
    | inl q ↦
        rw (q) (h j ∙ ap (λ m. read lib.writer.digests j (reg m).repo) ((==_iff tgt name).0 q))
    | inr q ↦ rw (q) refl
  ]

  mount_from-reads :
      (opened : String → Option Error) (start : Start) (src tgt : String) (dig d : D) (ref : ℕ)
      (u : MemRepoUpload D A) (reg : Registry D A)
      → Verifies lib.writer
      → Expects lib dig u
      → (mount_from lib opened start src tgt dig (ref, u) reg).1 ≡ some d
      → (d ≡ dig)
        × ((name : String) (j : D)
            → read lib.writer.digests j
                ((mount_from lib opened start src tgt dig (ref, u) reg).0 name).repo
              ≡ (if tgt == name && dig == j
                  then read lib.writer.digests dig (reg src).repo
                  else read lib.writer.digests j (reg name).repo))
  unfolding mount_from
  mount_from-reads opened start src tgt dig d ref u reg v a h = elim (Option-cases (opened src)) [
    | inr (y, o) ↦ ground arith
    | inl o ↦
        let got = blob_get lib.writer.digests dig (reg src).repo in
        let asked : Registry D A = set_system src (with_repo got.0 (reg src)) reg in
        let c = content-reads start dig d ref u got.1 (asked tgt) v a (ground arith) in
        let quiet =
          set-Same src (with_repo got.0 (reg src)) reg
            (λ j. read-blob_get lib.writer.digests dig j (reg src).repo) in
        (
          c.0,
          λ name j. elim (Bool-cases (tgt == name)) [
            | inl q ↦
                rw (o, q, mount_from)
                  (c.1 j
                    ∙ ap (λ r. if dig == j then got.1 else r)
                        (quiet tgt j
                          ∙ ap (λ n. read lib.writer.digests j (reg n).repo)
                              ((==_iff tgt name).0 q)))
            | inr q ↦ rw (o, q, mount_from) (quiet name j)
          ],
        )
  ]

  -- A creation that ends with an error mounts only a blob that the target has.
  mount-exists :
      (opened : String → Option Error) (start : Start) (src tgt dig_str : String)
      (reg : Registry D A) (dig d : D) (y : Error)
      → lib.writer.digests.parse dig_str ≡ ok dig
      → opened tgt ≡ none
      → (create lib start (blob_with_digest lib.writer dig ∷ []) (reg tgt)).1 ≡ err y
      → (mount_upload lib opened start src tgt dig_str reg).1 ≡ some d
      → (d ≡ dig)
        × ((has_blob dig (reg tgt).repo ≡ true)
            × ((name : String)
                → Same lib
                    (reg name).repo
                    ((mount_upload lib opened start src tgt dig_str reg).0 name).repo))
  unfolding mount_upload
  mount-exists opened start src tgt dig_str reg dig d blob_exists q o c h =
      let opts = blob_with_digest lib.writer dig ∷ [] in
      (
        ground (arith, q, o, c),
        (
          create-exists lib start dig (reg tgt) c,
          λ name.
              rw (q, o, c, mount_upload)
                (set-Same tgt (create lib start opts (reg tgt)).0 reg
                  (create-Same lib start opts (reg tgt)) name),
        ),
      )
  mount-exists opened start src tgt dig_str reg dig d y q o c h = ground (arith, q, o, c)

  -- A mount that succeeds is of the digest of its text; in the target, if the digest was not held in
  -- memory, it then reads as in the source, and every other read of every repository is as it was. The
  -- source may be the target.
  pub mount_upload-reads :
      (opened : String → Option Error) (start : Start) (src tgt dig_str : String)
      (reg : Registry D A) (d : D)
      → Verifies lib.writer
      → (mount_upload lib opened start src tgt dig_str reg).1 ≡ some d
      → (lib.writer.digests.parse dig_str ≡ ok d)
        × ((name : String) (j : D)
            → read lib.writer.digests j
                ((mount_upload lib opened start src tgt dig_str reg).0 name).repo
              ≡ (if tgt == name && (d == j && not (has_blob d (reg tgt).repo))
                  then read lib.writer.digests d (reg src).repo
                  else read lib.writer.digests j (reg name).repo))
  unfolding mount_upload
  mount_upload-reads opened start src tgt dig_str reg d v h =
      elim (Result-cases (lib.writer.digests.parse dig_str)) [
        | inl (y, q) ↦ ground arith
        | inr (dig, q) ↦ elim (Option-cases (opened tgt)) [
          | inr (y, o) ↦ ground arith
          | inl o ↦
              let made = create lib start (blob_with_digest lib.writer dig ∷ []) (reg tgt) in
              elim (Result-cases made.1) [
                | inl (y, c) ↦
                    let m = mount-exists opened start src tgt dig_str reg dig d y q o c h in
                    (ground (arith, q, m.0), λ name j. ground (arith, m.0, m.1.0, m.1.1 name j))
                | inr ((ref, u), c) ↦
                    let x = create-Expects lib start dig (reg tgt) ref u c in
                    let reg' : Registry D A = set_system tgt made.0 reg in
                    let m =
                      mount_from-reads opened start src tgt dig d ref u reg' v x.0
                        (ground (arith, q, o, c)) in
                    let quiet = set-Same tgt made.0 reg (create-Same lib start _ (reg tgt)) in
                    (
                      ground (arith, q, m.0),
                      λ name j.
                          rw (q, o, c, mount_upload)
                            (m.1 name j ∙ ground (arith, m.0, x.1, quiet src dig, quiet name j)),
                    )
              ]
        ]
      ]
