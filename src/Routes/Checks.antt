-- ===== src/Routes/Checks.antt =====
-- What stands between a request and a handler: the check of the access and the limit on the rate
-- (olareg.go).
use olareg.Shared.{
  ℕ, suc, ◌+◌, ◌≤◌, String, List, [], ◌∷◌, Option, none, some, Bool, true, ◌||◌, ◌≡◌, refl, ap, ◌∙◌,
  ◌==◌, ==_iff, string_comparable, arith, Bool-cases, inl, inr,
}
use olareg.Shared.Int.{ℤ, is_positive, exceeds}
use olareg.Shared.Slices.{length}
use olareg.Types.Error.{ok}
use olareg.Cache
use olareg.Cache.{Cache}
use olareg.Cache.Access.{read-set, read-get}
use olareg.Cache.Access
use olareg.Config.{ConfigApi, second}
use olareg.Auth.{AuthAccess}
use olareg.Auth.Handlers.{Outcome, next}
use olareg.RequestPath.{re_path, path_el}
use olareg.Routes.{Handler, Route, handled, serve_token, not_found, route}
use olareg.Routes.Access.{permits, route-permits}
use olareg.Routes.Serve.{
  RateLimitEntry, Request, run, token_served, unknown_route, count_request, rate_limit, checked,
  serve, client_ip,
}

-- The answer to a route.
-- The check of the access passes a request on; without one, every request is.
abbrev pub Admits : Option (String → AuthAccess → Outcome) → String → AuthAccess → Type 0
Admits none repo access = Unit
Admits (some wrap) repo access = wrap repo access ≡ next

checked-run :
    (auth : Option (String → AuthAccess → Outcome)) (g h : Handler) (repo : String)
    (access : AuthAccess)
    → checked auth g repo access ≡ run h
    → (g ≡ h) × Admits auth repo access
unfolding checked
checked-run none g h repo access q = (ground arith, tt)
checked-run (some wrap) g h repo access q = ground arith

route-run :
    (auth : Option (String → AuthAccess → Outcome)) (found : Route) (h : Handler)
    → (elim found [
      | handled g repo access ↦ checked auth g repo access
      | serve_token ↦ token_served
      | not_found ↦ unknown_route
    ])
      ≡ run h
    → (repo : String) × ((access : AuthAccess) × ((found ≡ handled h repo access)
          × Admits auth repo access))
route-run auth (handled g repo access) h q =
    let c = checked-run auth g h repo access q in
    (repo, (access, (ap (λ x. handled x repo access) c.0, c.1)))
route-run auth serve_token h q = ground arith
route-run auth not_found h q = ground arith

-- A handler runs only if the check of the access, if there is one, passes the request on for the
-- repository that the handler works on and the access that it needs; if the settings enable it; and if
-- the name of that repository is empty or one that `rePath` matches.
pub serve-run :
    (api : ConfigApi) (has_token : Bool) (auth : Option (String → AuthAccess → Outcome)) (now : ℕ)
    (r : Request) (c : Cache String RateLimitEntry) (h : Handler)
    → (serve api has_token auth now r c).1 ≡ run h
    → (repo : String) × ((access : AuthAccess) × (Admits auth repo access
          × ((permits api repo access h ≡ true) × ((repo == "" || re_path repo) ≡ true))))
unfolding serve
serve-run api has_token auth now r c h q =
    elim (Bool-cases (rate_limit api.rate_limit now (client_ip r.forwarded r.remote) c).1) [
      | inl g ↦ ground arith
      | inr g ↦
          let a = route-run auth (route api has_token r.method (path_el r.path)) h (ground arith) in
          let s = route-permits api has_token r.method (path_el r.path) h a.0 a.1.0 a.1.1.0 in
          (a.0, (a.1.0, (a.1.1.1, s)))
    ]

-- Requests of one address, one after the other.
unfoldable pub rate_limits :
    ℤ → String → List ℕ → Cache String RateLimitEntry → Cache String RateLimitEntry
rate_limits limit ip [] c = c
rate_limits limit ip (now ∷ times) c = rate_limits limit ip times (rate_limit limit now ip c).0

abbrev pub AllBy : ℕ → List ℕ → Type 0
AllBy t [] = Unit
AllBy t (x ∷ xs) = (x ≤ t) × AllBy t xs

get-now :
    (now : ℕ) (ip : String) (c : Cache String RateLimitEntry)
    → (Cache.get now ip c).1 ≡ Access.read ip c
unfolding Cache.get
get-now now ip c = ground arith

rate_limit-read :
    (limit : ℤ) (now : ℕ) (ip : String) (c : Cache String RateLimitEntry) (t k : ℕ)
    → is_positive limit ≡ true
    → Access.read ip c ≡ ok (record { first = t; count = k })
    → now ≤ t + second
    → (Access.read ip (rate_limit limit now ip c).0 ≡ ok (record { first = t; count = suc k }))
      × ((rate_limit limit now ip c).1 ≡ exceeds (suc k) limit)
unfolding rate_limit count_request
rate_limit-read limit now ip c t k p h l =
    let got = get-now now ip c ∙ h in
    let entry : RateLimitEntry = record { first = t; count = suc k } in
    let same : count_request now (Cache.get now ip c).1 ≡ entry = ground (arith, got) in
    rw (p, same, rate_limit)
      (read-set now ip ip entry (Cache.get now ip c).0 ∙ rw ((==_iff ip ip).1 refl) refl, refl)

-- Within a second of the first of k counted requests, every request of the address is counted, and is
-- blocked exactly if more than the limit were made, itself included.
pub rate_limit-window :
    (limit : ℤ) (ip : String) (times : List ℕ) (now t k : ℕ) (c : Cache String RateLimitEntry)
    → is_positive limit ≡ true
    → Access.read ip c ≡ ok (record { first = t; count = k })
    → AllBy (t + second) times
    → now ≤ t + second
    → (rate_limit limit now ip (rate_limits limit ip times c)).1
      ≡ exceeds (suc (length times + k)) limit
unfolding rate_limits
rate_limit-window limit ip [] now t k c p h a l =
    (rate_limit-read limit now ip c t k p h l).1 ∙ ap (λ n. exceeds (suc n) limit) (omega arith)
rate_limit-window limit ip (x ∷ times) now t k c p h a l =
    let r = rate_limit-read limit x ip c t k p h a.0 in
    let rest =
      rate_limit-window limit ip times now t (suc k) (rate_limit limit x ip c).0 p r.0 a.1 l in
    rest ∙ ap (λ n. exceeds (suc n) limit) (omega arith)
