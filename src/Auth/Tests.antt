-- ===== src/Auth/Tests.antt =====
-- Access control at small inputs. The password of every user is "pw", whatever its hash.
use olareg.Shared.{
  String, List, [], ◌∷◌, none, some, Option, Bool, true, false, ◌≡◌, refl, arith, ◌==◌, ==_iff,
  string_comparable,
}
use olareg.Shared.GoMap
use olareg.Shared.GoMap.{GoMap, keys}
use olareg.Shared.Slices.{any, count_p}
use olareg.Types.Error.{ok}
use olareg.Auth.{
  AuthAccess, read, write, delete, all, access_comparable, AuthUser, AuthAcl, AuthConf, has_suffix,
  matches_repo, member_by_group, user_match, grants, access_loop, check_access, Bcrypt,
  pass_validate, check_creds,
}
use olareg.Auth.Rules
use olareg.Auth.Groups.{add_groups, join_groups, member_loop, group_map, map_groups}
use olareg.Auth.Membership
use olareg.Auth.Membership.{InGroup}
use olareg.Auth.Handlers.{
  AuthController, AuthFile, AuthRequest, new_auth_controller, reload, get_conf, unauthorized,
  scope_of, refused, basic_outcome, basic_handler, token_expire,
}
use olareg.Auth.Tokens.{
  token_user, token_outcome, token_opaque_generate, expired_tokens, delete_tokens,
  token_opaque_cleanup,
}
use olareg.Auth.Guards
use olareg.Auth.Static.{static_conf}

program : Unit {0}
unfolding GoMap.lookup GoMap.put GoMap.delete any count_p has_suffix matches_repo member_by_group
    user_match grants access_loop check_access pass_validate check_creds add_groups join_groups
    member_loop group_map map_groups new_auth_controller reload get_conf unauthorized scope_of
    refused basic_outcome basic_handler token_user token_outcome token_opaque_generate
    expired_tokens delete_tokens token_opaque_cleanup static_conf
program = tt

abbrev bc : Bcrypt
bc = record { compare_hash = λ hash input. input == "pw"; generate = λ input. ok "$2y$" }

abbrev rule : String → List AuthAccess → List String → Bool → AuthAcl
rule repo access members anonymous = record {
  repo = repo;
  access = access;
  members = members;
  anonymous = anonymous;
}

abbrev everywhere : AuthAcl
everywhere = rule "*" (read ∷ []) [] true

abbrev team : AuthAcl
team = rule "team/*" (all ∷ []) ("devs" ∷ []) false

abbrev locked : AuthAcl
locked = rule "team/locked" (read ∷ []) ("devs" ∷ []) false

-- Ann is in "core", which is in "devs".
abbrev loaded : AuthConf
loaded = record {
  users = ("ann", some (record { cred = "$2y$"; groups = [] })) ∷ ("nil", none) ∷ [];
  groups =
      ("devs", some (record { members = "core" ∷ [] }))
      ∷ ("core", some (record { members = "ann" ∷ "devs" ∷ [] }))
      ∷ [];
  acls = everywhere ∷ team ∷ locked ∷ [];
}

abbrev conf : AuthConf
conf = map_groups 3 ("devs" ∷ "core" ∷ []) loaded

runs :
    (check_access conf "team/x" delete "ann" ≡ true)
    × (check_access conf "team/locked" delete "ann" ≡ false)
    × (check_access conf "team/x" read "" ≡ true)
    × (check_access conf "team/x" write "" ≡ false)
    × (check_access conf "lib" read "ann" ≡ false)
    × (check_creds bc conf "nil" "pw" ≡ none)
unfolding program
runs = (refl, refl, refl, refl, refl, refl)

check_access-decided_example : check_access conf "team/x" delete "ann" ≡ true
unfolding program
check_access-decided_example =
    Rules.check_access-decided conf "team/x" delete "ann" (everywhere ∷ []) (locked ∷ []) team refl
      refl refl refl

group_map-enough_example :
    group_map 4 loaded.groups "devs" [] loaded.users
    ≡ group_map 3 loaded.groups "devs" [] loaded.users
unfolding program
group_map-enough_example =
    Membership.group_map-enough loaded.groups 3 "devs" [] loaded.users (omega arith)

abbrev ann : AuthUser
ann = record { cred = "$2y$"; groups = "core" ∷ "devs" ∷ [] }

map_groups-InGroup_example : InGroup loaded.groups "devs" "ann"
unfolding program
map_groups-InGroup_example =
    Membership.map_groups-InGroup 3 ("devs" ∷ "core" ∷ []) loaded "ann" "devs" ann
      (λ v av h. ground arith) refl refl

abbrev file : AuthFile
file = record { stat = ok 5; opened = none; decoded = ok loaded }

abbrev ac : AuthController
ac = record {
  filename = "";
  modified = 0;
  poll = 0;
  conf = conf;
  realm = "olareg";
  service = "reg";
  opaque = [];
}

abbrev request : Option (String × String) → AuthRequest
request basic = record { basic = basic; authorization = ""; is_get = true; service = "reg" }

basic_handler-next_example :
    (creds : AuthUser) × (GoMap.lookup "ann" conf.users ≡ some (some creds))
    × (pass_validate bc "pw" creds.cred ≡ true)
    × (check_access conf "team/x" write "ann" ≡ true)
unfolding program
basic_handler-next_example =
    Guards.basic_handler-next bc (λ s. s) 9 file "team/x" write (request (some ("ann", "pw"))) ac
      "ann" "pw" refl (ground (arith, ==_iff {A = String} "ann" "")) refl

token_user-generate_example :
    token_user 10 "t"
      (token_opaque_generate bc 9 file (ok "t") (request (some ("ann", "pw"))) ac).0.opaque
    ≡ "ann"
unfolding program
token_user-generate_example =
    Guards.token_user-generate bc file (ok "t") (request (some ("ann", "pw"))) ac 9 10
      (record { token = "t"; expires_in = token_expire; issued_at = 9 }) refl

abbrev with_tokens : AuthController
with_tokens = record ac {
  opaque =
      ("old", record { user = "ann"; expires = 3 })
      ∷ ("new", record { user = "ann"; expires = 30 })
      ∷ [];
}
