-- ===== src/Manifests/Passed.antt =====
-- What `manifestPut` has done where it accepts a manifest (manifest.go).
use olareg.Shared.{
  String, List, Option, none, some, false, ◌≡◌, refl, sym, ap, subst, ◌∙◌, Comparable, arith,
  Bool-cases, inl, inr, Sum-cases, string_comparable,
}
use olareg.Types.Error.{Error, ok}
use olareg.Types.Digest.{Bytes}
use olareg.Config.{Config}
use olareg.Store.Mem.{is_set}
use olareg.Store.System.{System}
use olareg.Manifests.{
  ManifestLib, PutRequest, created, Target, Checked, parse_put, read_limited, read_put,
}
use olareg.Manifests.Check.{check_content}
use olareg.Manifests.Put.{PutTimes, finish_put, store_put, put_checked, type_of, manifest_put}
use olareg.Manifests.Refused.{check-blames}

module _ {D A : Type 0} ⦃e : Comparable D⦄ ⦃f : Comparable A⦄ (lib : ManifestLib D A)
    (conf : Config) (times : PutTimes) (arg : String) (r : PutRequest) where
  -- What the checks found, and that the rest was carried out.
  pub record Passed (opened : Option Error) (s : System D A) (d : D) (raw : Bytes) : Type 0 where
    pub target : Target D
    pub checked : Checked D
    pub parsed : parse_put lib conf arg r ≡ inr target
    pub content :
        (check_content lib conf (type_of lib target.media_type raw) raw d s).1 ≡ inr checked
    pub stored :
        manifest_put lib conf times arg r opened s
        ≡ store_put lib times
            (type_of lib target.media_type raw)
            target.tags
            raw
            d
            checked
            (check_content lib conf (type_of lib target.media_type raw) raw d s).0

  store-digest :
      (mt : String) (ts : List String) (raw : Bytes) (d x : D) (tags : List String) (sub : Option D)
      (c : Checked D) (s : System D A)
      → (store_put lib times mt ts raw d c s).1 ≡ created x tags sub
      → d ≡ x
  unfolding store_put finish_put
  store-digest mt ts raw d x tags sub c s h = ground arith

  read-body :
      (expect d : D) (raw : Bytes)
      → read_put lib conf expect r ≡ inr (raw, d)
      → read_limited conf.api.manifest.limit r.body r.error ≡ ok raw
  unfolding read_put
  read-body expect d raw h = ground arith

  checked_put :
      (mt : String) (tags ts : List String) (raw : Bytes) (y d : D) (sub : Option D)
      (s : System D A)
      → (put_checked lib times mt ts raw y (check_content lib conf mt raw y s)).1
        ≡ created d tags sub
      → (c : Checked D) × ((y ≡ d)
          × (((check_content lib conf mt raw y s).1 ≡ inr c)
              × (put_checked lib times mt ts raw y (check_content lib conf mt raw y s)
                  ≡ store_put lib times mt ts raw y c (check_content lib conf mt raw y s).0)))
  unfolding put_checked
  checked_put mt tags ts raw y d sub s h =
      let r = check_content lib conf mt raw y s in
      elim (Sum-cases r.1) [
        | inl (reply, w) ↦ ground (arith, check-blames lib conf mt raw y s reply w)
        | inr (c, w) ↦ (
          c,
          (
            store-digest mt ts raw y d tags sub c r.0 (rw (w, put_checked) at h),
            (w, rw (w, put_checked) refl),
          ),
        )
      ]

  put-checked :
      (s : System D A) (t : Target D) (y : D) (raw : Bytes)
      → is_set conf.storage.read_only ≡ false
      → parse_put lib conf arg r ≡ inr t
      → read_put lib conf t.expect r ≡ inr (raw, y)
      → manifest_put lib conf times arg r none s
        ≡ put_checked lib times
            (type_of lib t.media_type raw)
            t.tags
            raw
            y
            (check_content lib conf (type_of lib t.media_type raw) raw y s)
  unfolding manifest_put
  put-checked s t y raw k q g = rw (k, q, g, manifest_put) refl

  checked-Passed :
      (s : System D A) (t : Target D) (y d : D) (raw : Bytes) (tags : List String) (sub : Option D)
      → is_set conf.storage.read_only ≡ false
      → parse_put lib conf arg r ≡ inr t
      → read_put lib conf t.expect r ≡ inr (raw, y)
      → (manifest_put lib conf times arg r none s).1 ≡ created d tags sub
      → Passed none s d raw
  checked-Passed s t y d raw tags sub k q g h =
      let run = put-checked s t y raw k q g in
      let p =
        checked_put (type_of lib t.media_type raw) tags t.tags raw y d sub s
          (sym (ap (λ x. x.1) run) ∙ h) in
      subst (λ j. Passed none s j raw) p.1.0
        (record {
          target = t;
          checked = p.0;
          parsed = q;
          content = p.1.1.0;
          stored = run ∙ p.1.1.1;
        })

  -- Where `manifestPut` answers 201, the checks passed, and the manifest was stored after them.
  pub created-Passed :
      (opened : Option Error) (s : System D A) (d : D) (raw : Bytes) (tags : List String)
      (sub : Option D)
      → read_limited conf.api.manifest.limit r.body r.error ≡ ok raw
      → (manifest_put lib conf times arg r opened s).1 ≡ created d tags sub
      → Passed opened s d raw
  unfolding manifest_put
  created-Passed (some x) s d raw tags sub b h = ground arith
  created-Passed none s d raw tags sub b h = elim (Bool-cases (is_set conf.storage.read_only)) [
    | inl k ↦ ground arith
    | inr k ↦ elim (Sum-cases (parse_put lib conf arg r)) [
      | inl (x, q) ↦ ground arith
      | inr (t, q) ↦ elim (Sum-cases (read_put lib conf t.expect r)) [
        | inl (x, g) ↦ ground arith
        | inr ((body, y), g) ↦
            let same : body ≡ raw = ground (arith, read-body t.expect y body g, b) in
            checked-Passed s t y d raw tags sub k q (g ∙ ap (λ bs. inr (bs, y)) same) h
      ]
    ]
  ]
