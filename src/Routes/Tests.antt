-- ===== src/Routes/Tests.antt =====
-- Routes of small requests.
use olareg.Shared.{
  some, String, [], ◌∷◌, none, true, false, if◌then◌else◌, arith, ◌≡◌, refl, ◌==◌,
  string_comparable, ◌||◌,
}
use olareg.Auth.{AuthAccess, read, access_comparable}
use olareg.Config.{
  ConfigApi, bool_default, int_default, positive_default, api_defaults, gc_defaults, root_default,
  storage_defaults, set_defaults,
}
use olareg.Config.Tests.{plain}
use olareg.RequestPath.{
  re_path, match_path, join_path, split_slash, clean, reverse_onto, path_el, match_loop, match_v2,
}
use olareg.Routes.{
  get, put, handled, tag_list, blob_upload_put, manifest_get, manifest_route, blob_route,
  referrer_route, upload_handler, upload_route, token_route, late_route, route,
}
use olareg.Shared.GoMap
use olareg.Shared.Int.{pos}
use olareg.Cache
use olareg.Cache.{Cache}
use olareg.Auth.Handlers.{Outcome, next}
use olareg.Routes.Checks
use olareg.Routes.Serve.{
  RateLimitEntry, Request, client_ip, count_request, rate_limit, checked, serve,
}
use olareg.Routes.Access.{permits}
use olareg.Routes.Names

unfoldable program : Unit {0}
unfolding bool_default int_default positive_default api_defaults gc_defaults root_default
    storage_defaults set_defaults re_path match_path join_path split_slash clean reverse_onto
    path_el match_loop match_v2 manifest_route blob_route referrer_route upload_handler upload_route
    token_route late_route route client_ip count_request rate_limit checked serve GoMap.lookup
    GoMap.put Cache.new Cache.get Cache.set Cache.touch
program = tt

abbrev api : ConfigApi
api = (set_defaults plain).api

-- A path that climbs is cleaned before it is matched.
climbing : path_el "/v2/../v2/./a//b/manifests/v1/" ≡ "v2" ∷ "a" ∷ "b" ∷ "manifests" ∷ "v1" ∷ []
unfolding program
climbing = refl

names : (re_path "a/b__c/d--e.f" ≡ true) × ((re_path "a___b" ≡ false) × (re_path "a/-b" ≡ false))
unfolding program
names = (refl, (refl, refl))

nested :
    route api false get ("v2" ∷ "blobs" ∷ "manifests" ∷ "manifests" ∷ "v1" ∷ [])
    ≡ handled (manifest_get "blobs/manifests" "v1") "blobs/manifests" read
unfolding program
nested = refl

-- A check that lets pass what reads, and what writes to a/b.
abbrev check : String → AuthAccess → Outcome
check repo access = if access == read || repo == "a/b" then next else Outcome.status 401

abbrev fresh : Cache String RateLimitEntry
fresh = Cache.new (record { age = 10; count = 0; prune_fn = none })

abbrev request : Request
request = record {
  method = put;
  path = "/v2/a/b/blobs/uploads/id";
  forwarded = "";
  remote = "10.0.0.1:99";
}

address : client_ip "" "10.0.0.1:99" ≡ "10.0.0.1"
unfolding program
address = refl

serve-run_example :
    (repo : String) × ((access : AuthAccess) × ((check repo access ≡ next)
        × ((permits api repo access (blob_upload_put "a/b" "id") ≡ true)
            × ((repo == "" || re_path repo) ≡ true))))
unfolding program
serve-run_example =
    Checks.serve-run api false (some check) 1 request fresh (blob_upload_put "a/b" "id") refl

abbrev seen : Cache String RateLimitEntry
seen = (rate_limit (pos 2) 5 "ip" fresh).0

rate_limit-window_example :
    (rate_limit (pos 2) 9 "ip" (Checks.rate_limits (pos 2) "ip" (6 ∷ []) seen)).1 ≡ true
unfolding program
rate_limit-window_example =
    Checks.rate_limit-window (pos 2) "ip" (6 ∷ []) 9 5 1 seen refl refl (omega arith, tt)
      (omega arith)

route-names_example :
    (route api false put ("v2" ∷ "a" ∷ "tags" ∷ "manifests" ∷ "v1" ∷ [])
      ≡ manifest_route api put "a/tags" "v1")
    × ((route api false put ("v2" ∷ "a" ∷ "tags" ∷ "blobs" ∷ "v1" ∷ [])
          ≡ blob_route api put "a/tags" "v1")
        × ((route api false put ("v2" ∷ "a" ∷ "tags" ∷ "referrers" ∷ "v1" ∷ [])
              ≡ referrer_route api put "a/tags" "v1")
            × (route api false get ("v2" ∷ "a" ∷ "tags" ∷ "tags" ∷ "list" ∷ [])
                ≡ handled (tag_list "a/tags") "a/tags" read)))
unfolding program
route-names_example = Names.route-names api false put "a" ("tags" ∷ []) "v1" refl
