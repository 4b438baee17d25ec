-- ===== src/Routes/Serve.antt =====
-- olareg.go: `ServeHTTP`. A cached entry of the rate limit is a value: the pointer that is changed is
-- stored again. `wrap` is the handler of the configuration that checks the access, if it has one.
use Prim.Native.Char.{code}
use Prim.Native.String.{String, slice}
use text.Mathlib.Text.{starts_with}
use olareg.Shared.{
  ℕ, suc, ◌+◌, Option, none, some, Bool, false, ◌==◌, string_comparable, nat_eqb, ltb,
  if◌then◌else◌,
}
use olareg.Shared.Int.{ℤ, is_positive, exceeds}
use olareg.Types.Error.{Result, ok, err}
use olareg.Cache
use olareg.Cache.{Cache}
use olareg.Config.{ConfigApi, second}
use olareg.Auth.{AuthAccess}
use olareg.Auth.Handlers.{Outcome, next}
use olareg.RequestPath.{path_el}
use olareg.Routes.{Method, Handler, handled, serve_token, not_found, route}

pub record RateLimitEntry : Type 0 where
  pub first : ℕ
  pub count : ℕ

-- `strings.Cut(ip, ", ")`, what stands before
unfoldable pub before_comma : String → String
before_comma String.[] = String.[]
before_comma (String.◌∷◌ c s) =
    let rest = before_comma s in
    if starts_with (String.◌∷◌ c s) ", " then String.[] else String.◌∷◌ c rest

-- `strings.LastIndex(ip, ":")`, `none` for -1
unfoldable pub last_colon : String → Option ℕ
last_colon String.[] = none
last_colon (String.◌∷◌ c s) = elim (last_colon s) [
  | some i ↦ some (suc i)
  | none ↦ if nat_eqb (code c) b':' then some 0 else none
]

-- The address that a request counts for, from `X-Forwarded-For` and the remote address.
unfoldable pub client_ip : String → String → String
unfolding before_comma last_colon
client_ip forwarded remote =
    if forwarded == ""
    then (elim (last_colon remote) [ some (suc i) ↦ slice remote 0 (suc i) | _ ↦ remote ])
    else before_comma forwarded

-- The entry that is stored for a request at `now`; its count is the one that is compared.
unfoldable pub count_request : ℕ → Result RateLimitEntry → RateLimitEntry
count_request now (err _) = record { first = now; count = 1 }
count_request now (ok limit) =
    if ltb (limit.first + second) now
    then record { first = now; count = 1 }
    else record { first = limit.first; count = suc limit.count }

-- The part of `ServeHTTP` on the rate: the cache after it, and whether the request is blocked.
unfoldable pub rate_limit :
    ℤ → ℕ → String → Cache String RateLimitEntry → Cache String RateLimitEntry × Bool
rate_limit limit now ip c =
    let got = Cache.get now ip c in
    let entry = count_request now got.1 in
    if is_positive limit
    then ((Cache.set now ip entry got.0).0, exceeds entry.count limit)
    else (c, false)

pub record Request : Type 0 where
  pub method : Method
  pub path : String
  pub forwarded : String
  pub remote : String

pub data Answer : Type 0 where
  -- 429
  too_many : Answer
  token_served : Answer
  -- 404
  unknown_route : Answer
  -- the handler is run
  run : Handler → Answer
  -- the check of the access has answered
  refused : Outcome → Answer

unfoldable pub checked :
    Option (String → AuthAccess → Outcome) → Handler → String → AuthAccess → Answer
checked none h repo access = run h
checked (some wrap) h repo access = elim (wrap repo access) [ next ↦ run h | o ↦ refused o ]

-- `ServeHTTP` of a server whose store is open.
unfoldable pub serve :
    ConfigApi
    → Bool
    → Option (String → AuthAccess → Outcome)
    → ℕ
    → Request
    → Cache String RateLimitEntry
    → Cache String RateLimitEntry × Answer
serve api has_token wrap now r c =
    let limited = rate_limit api.rate_limit now (client_ip r.forwarded r.remote) c in
    if limited.1 then (limited.0, too_many) else (
      limited.0,
      elim (route api has_token r.method (path_el r.path)) [
        | handled h repo access ↦ checked wrap h repo access
        | serve_token ↦ token_served
        | not_found ↦ unknown_route
      ],
    )
