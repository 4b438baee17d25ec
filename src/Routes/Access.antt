-- ===== src/Routes/Access.antt =====
-- What a route lets a handler do, and which names of repositories reach one (olareg.go).
use olareg.Shared.{
  ◌-◌, String, List, [], ◌∷◌, ◌++◌, none, some, Bool, true, ◌&&◌, ◌||◌, ◌≡◌, refl, ◌==◌, ==_iff,
  string_comparable, arith, Option-cases, inl, inr, if◌then◌else◌,
}
use olareg.Shared.Slices.{length, take, drop}
use olareg.Auth.{AuthAccess, read, write, access_comparable}
use olareg.Config.{ConfigApi}
use olareg.Store.Mem.{is_set}
use olareg.RequestPath.{re_path, join_path, Pattern, repo_value, one, literal, match_loop, match_v2}
use olareg.Routes.{
  Method, Handler, Route, handled, v2_ping, method_not_allowed, manifest_get, manifest_put,
  manifest_delete, blob_get, blob_delete, blob_upload_post, tag_list, referrer_get,
  blob_upload_patch, blob_upload_put, blob_upload_get, blob_upload_delete, manifest_route,
  blob_route, referrer_route, upload_handler, upload_route, token_route, late_route, route, two,
  is_read,
}

-- The handler works on this repository, the access is the one that it needs, and the settings enable it.
abbrev pub permits : ConfigApi → String → AuthAccess → Handler → Bool
permits api repo access v2_ping = access == read
permits api repo access method_not_allowed = true
permits api repo access (manifest_get r arg) = r == repo && access == read
permits api repo access (blob_get r arg) = r == repo && access == read
permits api repo access (tag_list r) = r == repo && access == read
permits api repo access (referrer_get r arg) =
    r == repo && (access == read && is_set api.referrer.enabled)
permits api repo access (manifest_put r arg) =
    r == repo && (access == write && is_set api.push_enabled)
permits api repo access (blob_upload_post r) =
    r == repo && (access == write && is_set api.push_enabled)
permits api repo access (blob_upload_patch r id) =
    r == repo && (access == write && is_set api.push_enabled)
permits api repo access (blob_upload_put r id) =
    r == repo && (access == write && is_set api.push_enabled)
permits api repo access (blob_upload_get r id) =
    r == repo && (access == write && is_set api.push_enabled)
permits api repo access (blob_upload_delete r id) =
    r == repo && (access == write && is_set api.push_enabled)
permits api repo access (manifest_delete r arg) =
    r == repo && (access == AuthAccess.delete && is_set api.delete_enabled)
permits api repo access (blob_delete r arg) =
    r == repo
    && (access == AuthAccess.delete
        && (is_set api.delete_enabled && is_set api.blob.delete_enabled))

-- A route to a handler is one that permits it, on a repository whose name is well formed.
abbrev pub sound : ConfigApi → Route → Bool
sound api (handled h repo access) = permits api repo access h && (repo == "" || re_path repo)
sound api _ = true

abbrev is_name : String → Bool
is_name repo = repo == "" || re_path repo

same_name : (r : String) → (r == r) ≡ true
same_name r = (==_iff r r).1 refl

manifest-sound :
    (api : ConfigApi) (m : Method) (repo arg : String)
    → is_name repo ≡ true
    → sound api (manifest_route api m repo arg) ≡ true
unfolding manifest_route
manifest-sound api m repo arg h = ground (arith, same_name repo)

blob-sound :
    (api : ConfigApi) (m : Method) (repo arg : String)
    → is_name repo ≡ true
    → sound api (blob_route api m repo arg) ≡ true
unfolding blob_route
blob-sound api m repo arg h = ground (arith, same_name repo)

referrer-sound :
    (api : ConfigApi) (m : Method) (repo arg : String)
    → is_name repo ≡ true
    → sound api (referrer_route api m repo arg) ≡ true
unfolding referrer_route
referrer-sound api m repo arg h = ground (arith, same_name repo)

upload-sound :
    (api : ConfigApi) (m : Method) (repo id : String)
    → is_name repo ≡ true
    → sound api (upload_route api m repo id) ≡ true
unfolding upload_route upload_handler
upload-sound api m repo id h = ground (arith, same_name repo)

-- Patterns of one element each.
abbrev Single : List Pattern → Type 0
Single [] = Unit
Single (repo_value ∷ ps) = ⊥
Single (one ∷ ps) = Single ps
Single (literal p ∷ ps) = Single ps

-- Once the name is matched, it and the first match stay.
match-first :
    (ps : List Pattern) (el : List String) (repo r x : String) (ms ns : List String)
    → Single ps
    → match_loop ps el repo (x ∷ ms) ≡ some (r, ns)
    → (r ≡ repo) × ((rest : List String) × (ns ≡ x ∷ rest))
unfolding match_loop
match-first [] [] repo r x ms ns h q = (ground arith, (ms, ground arith))
match-first [] (y ∷ el) repo r x ms ns h q = ground arith
match-first (repo_value ∷ ps) el repo r x ms ns h q = absurd h
match-first (one ∷ ps) [] repo r x ms ns h q = ground arith
match-first (one ∷ ps) (y ∷ el) repo r x ms ns h q =
    match-first ps el repo r x (ms ++ y ∷ []) ns h q
match-first (literal p ∷ ps) [] repo r x ms ns h q = ground arith
match-first (literal p ∷ ps) (y ∷ el) repo r x ms ns h q =
    match-first ps el repo r x ms ns h (ground arith)

match_v2-name :
    (path : List String) (ps : List Pattern) (x : String) (rest : List String)
    → Single ps
    → match_v2 path (repo_value ∷ ps) ≡ some (x ∷ rest)
    → is_name x ≡ true
unfolding match_v2 match_loop
match_v2-name [] ps x rest h q = ground arith
match_v2-name (v ∷ el) ps x rest h q =
    let n = length el - length ps in
    elim (Option-cases
      (match_loop ps (drop n el) (join_path (take n el)) (join_path (take n el) ∷ []))) [
        | inl g ↦ ground arith
        | inr ((r, ns), g) ↦
            let f =
              match-first ps (drop n el) (join_path (take n el)) r (join_path (take n el)) [] ns h
                g in
            ground (arith, f.0, f.1.1)
      ]

two-name :
    (path : List String) (ps : List Pattern) (x y : String)
    → Single ps
    → two (match_v2 path (repo_value ∷ ps)) ≡ some (x, y)
    → is_name x ≡ true
two-name path ps x y h q = elim (Option-cases (match_v2 path (repo_value ∷ ps))) [
  | inl g ↦ ground arith
  | inr ([], g) ↦ ground arith
  | inr (a ∷ [], g) ↦ ground arith
  | inr (a ∷ b ∷ ms, g) ↦ ground (arith, match_v2-name path ps a (b ∷ ms) h g)
]

token-sound :
    (api : ConfigApi) (has_token : Bool) (path : List String)
    → sound api (token_route has_token path) ≡ true
unfolding token_route
token-sound api has_token [] = refl
token-sound api has_token (p ∷ []) = ground arith
token-sound api has_token (p ∷ x ∷ path) = refl

read-name :
    (m : Method) (path : List String) (ps : List Pattern) (x : String) (rest : List String)
    → Single ps
    → (if is_read m then match_v2 path (repo_value ∷ ps) else none) ≡ some (x ∷ rest)
    → is_name x ≡ true
read-name m path ps x rest h q = match_v2-name path ps x rest h (ground arith)

uploads-sound :
    (api : ConfigApi) (has_token : Bool) (m : Method) (path : List String)
    → sound api
        (elim (two (match_v2 path (repo_value ∷ literal "blobs" ∷ literal "uploads" ∷ one ∷ []))) [
          | some (repo, id) ↦ upload_route api m repo id
          | none ↦ token_route has_token path
        ])
      ≡ true
uploads-sound api has_token m path =
    let ps = literal "blobs" ∷ literal "uploads" ∷ one ∷ [] in
    elim (Option-cases (two (match_v2 path (repo_value ∷ ps)))) [
      | inl g ↦ rw (g) (token-sound api has_token path)
      | inr ((r, id), g) ↦ rw (g) (upload-sound api m r id (two-name path ps r id tt g))
    ]

late-sound :
    (api : ConfigApi) (has_token : Bool) (m : Method) (path : List String)
    → sound api (late_route api has_token m path) ≡ true
unfolding late_route
late-sound api has_token m path =
    let ps = literal "tags" ∷ literal "list" ∷ [] in
    elim (Option-cases (if is_read m then match_v2 path (repo_value ∷ ps) else none)) [
      | inl g ↦ rw (g, late_route) (uploads-sound api has_token m path)
      | inr ([], g) ↦ rw (g, late_route) (uploads-sound api has_token m path)
      | inr (r ∷ rest, g) ↦
          let n = read-name m path ps r rest tt g in
          rw (g, late_route) (ground (arith, n, same_name r))
    ]

route-checked :
    (api : ConfigApi) (has_token : Bool) (m : Method) (path : List String)
    → sound api (route api has_token m path) ≡ true
unfolding route
route-checked api has_token m path =
    let manifests = literal "manifests" ∷ one ∷ [] in
    let blobs = literal "blobs" ∷ one ∷ [] in
    let referrers = literal "referrers" ∷ one ∷ [] in
    elim (Option-cases (if is_read m then match_v2 path [] else none)) [
      | inr (x, g) ↦ rw (g, route) refl
      | inl g ↦ elim (Option-cases (two (match_v2 path (repo_value ∷ manifests)))) [
        | inr ((r, arg), k) ↦
            rw (g, k, route) (manifest-sound api m r arg (two-name path manifests r arg tt k))
        | inl k ↦ elim (Option-cases (two (match_v2 path (repo_value ∷ blobs)))) [
          | inr ((r, arg), l) ↦
              rw (g, k, l, route) (blob-sound api m r arg (two-name path blobs r arg tt l))
          | inl l ↦ elim (Option-cases (two (match_v2 path (repo_value ∷ referrers)))) [
            | inr ((r, arg), n) ↦
                rw (g, k, l, n, route)
                  (referrer-sound api m r arg (two-name path referrers r arg tt n))
            | inl n ↦ rw (g, k, l, n, route) (late-sound api has_token m path)
          ]
        ]
      ]
    ]

-- Every request that `ServeHTTP` gives to a handler: the handler works on the repository whose access
-- is checked, the access is that of what it does, the settings enable it, and the name of the
-- repository is empty, as for the ping, or one that `rePath` matches.
pub route-permits :
    (api : ConfigApi) (has_token : Bool) (m : Method) (path : List String) (h : Handler)
    (repo : String) (access : AuthAccess)
    → route api has_token m path ≡ handled h repo access
    → (permits api repo access h ≡ true) × ((repo == "" || re_path repo) ≡ true)
route-permits api has_token m path h repo access q =
    ground (arith, q, route-checked api has_token m path)
