-- ===== src/Routes.antt =====
-- olareg.go: the route of a request, and the limit on the rate of requests.
pub mod Access
pub mod Serve
pub mod Checks
pub mod Names
mod Tests
use olareg.Shared.{
  String, List, [], ◌∷◌, Option, none, some, Bool, true, false, ◌&&◌, ◌==◌, string_comparable,
  if◌then◌else◌,
}
use olareg.Auth.{AuthAccess, unknown, read, write}
use olareg.Config.{ConfigApi}
use olareg.Store.Mem.{is_set}
use olareg.RequestPath.{repo_value, one, literal, match_v2}

pub data Method : Type 0 where
  get head put post patch delete other : Method

abbrev pub is_read : Method → Bool
is_read get = true
is_read head = true
is_read _ = false

pub data Handler : Type 0 where
  v2_ping method_not_allowed : Handler
  manifest_get manifest_put manifest_delete : String → String → Handler
  blob_get blob_delete : String → String → Handler
  blob_upload_post tag_list : String → Handler
  referrer_get : String → String → Handler
  blob_upload_patch blob_upload_put blob_upload_get blob_upload_delete : String → String → Handler

-- The handler, and the access that it is wrapped with; `serve_token` is the token server.
pub data Route : Type 0 where
  handled : Handler → String → AuthAccess → Route
  serve_token not_found : Route

abbrev pub enabled : Bool → Handler → Handler
enabled on h = if on then h else method_not_allowed

unfoldable pub manifest_route : ConfigApi → Method → String → String → Route
manifest_route api get repo arg = handled (manifest_get repo arg) repo read
manifest_route api head repo arg = handled (manifest_get repo arg) repo read
manifest_route api put repo arg =
    handled (enabled (is_set api.push_enabled) (manifest_put repo arg)) repo write
manifest_route api delete repo arg =
    handled (enabled (is_set api.delete_enabled) (manifest_delete repo arg)) repo AuthAccess.delete
manifest_route api _ repo arg = handled method_not_allowed repo unknown

unfoldable pub blob_route : ConfigApi → Method → String → String → Route
blob_route api get repo arg = handled (blob_get repo arg) repo read
blob_route api head repo arg = handled (blob_get repo arg) repo read
blob_route api delete repo arg =
    handled
      (enabled (is_set api.delete_enabled && is_set api.blob.delete_enabled) (blob_delete repo arg))
      repo AuthAccess.delete
blob_route api post repo arg =
    if arg == "uploads"
    then handled (enabled (is_set api.push_enabled) (blob_upload_post repo)) repo write
    else handled method_not_allowed repo unknown
blob_route api _ repo arg = handled method_not_allowed repo unknown

unfoldable pub referrer_route : ConfigApi → Method → String → String → Route
referrer_route api m repo arg =
    if is_read m
    then handled (enabled (is_set api.referrer.enabled) (referrer_get repo arg)) repo read
    else handled method_not_allowed repo unknown

unfoldable pub upload_handler : Method → String → String → Handler
upload_handler patch repo id = blob_upload_patch repo id
upload_handler put repo id = blob_upload_put repo id
upload_handler get repo id = blob_upload_get repo id
upload_handler delete repo id = blob_upload_delete repo id
upload_handler _ repo id = method_not_allowed

unfoldable pub upload_route : ConfigApi → Method → String → String → Route
unfolding upload_handler
upload_route api m repo id =
    handled (enabled (is_set api.push_enabled) (upload_handler m repo id)) repo write

-- The first two matches.
abbrev pub two : Option (List String) → Option (String × String)
two (some (x ∷ y ∷ _)) = some (x, y)
two _ = none

unfoldable pub token_route : Bool → List String → Route
token_route has_token (p ∷ []) = if p == "token" && has_token then serve_token else not_found
token_route has_token _ = not_found

-- The routes that come after those of manifests, blobs and referrers.
unfoldable pub late_route : ConfigApi → Bool → Method → List String → Route
unfolding token_route
late_route api has_token m path =
    elim (if is_read m
      then match_v2 path (repo_value ∷ literal "tags" ∷ literal "list" ∷ [])
      else none) [
        | some (repo ∷ _) ↦ handled (tag_list repo) repo read
        | _ ↦
            elim (two
              (match_v2 path (repo_value ∷ literal "blobs" ∷ literal "uploads" ∷ one ∷ []))) [
                | some (repo, id) ↦ upload_route api m repo id
                | none ↦ token_route has_token path
              ]
      ]

-- The choice of the handler in `ServeHTTP`.
unfoldable pub route : ConfigApi → Bool → Method → List String → Route
route api has_token m path = elim (if is_read m then match_v2 path [] else none) [
  | some _ ↦ handled v2_ping "" read
  | none ↦ elim (two (match_v2 path (repo_value ∷ literal "manifests" ∷ one ∷ []))) [
    | some (repo, arg) ↦ manifest_route api m repo arg
    | none ↦ elim (two (match_v2 path (repo_value ∷ literal "blobs" ∷ one ∷ []))) [
      | some (repo, arg) ↦ blob_route api m repo arg
      | none ↦ elim (two (match_v2 path (repo_value ∷ literal "referrers" ∷ one ∷ []))) [
        | some (repo, arg) ↦ referrer_route api m repo arg
        | none ↦ late_route api has_token m path
      ]
    ]
  ]
]
