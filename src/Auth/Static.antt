-- ===== src/Auth/Static.antt =====
-- config/auth.go: the controllers that the program makes: over a file, with or without tokens, and
-- over a fixed list of logins.
use Prim.Native.String.{len}
use text.Mathlib.TextPositions.{slice-zero-zero}
use olareg.Shared.{
  String, List, [], ◌∷◌, Option, none, some, Bool, true, false, ◌&&◌, ◌≡◌, ◌≢◌, refl, ap, arith,
  leb, Option-cases, inl, inr, ◌==◌, string_comparable, if◌then◌else◌,
}
use olareg.Shared.GoMap
use olareg.Shared.GoMap.{GoMap, keys}
use olareg.Shared.Slices.{any}
use olareg.Shared.Members.{contains}
use olareg.Types.Error.{Result, ok, err, other}
use olareg.Auth.{
  AuthAccess, access_comparable, read, write, delete, all, AuthUser, AuthAcl, AuthConf, Bcrypt,
  pass_hash, check_access, access_loop, matches_repo, user_match, member_by_group, grants,
}
use olareg.Auth.Handlers.{AuthController, AuthFile, new_auth_controller}

abbrev pub auth_description : String
auth_description = "olareg registry"

abbrev pub AuthOpt : Type 0
AuthOpt = AuthController → AuthController

unfoldable pub with_auth_realm : String → AuthOpt
with_auth_realm realm af = record af { realm = realm }

unfoldable pub with_auth_service : String → AuthOpt
with_auth_service service af = record af { service = service }

unfoldable pub apply_auth_opts : List AuthOpt → AuthController → AuthController
apply_auth_opts [] ac = ac
apply_auth_opts (opt ∷ opts) ac = apply_auth_opts opts (opt ac)

-- `NewAuthBasicFile`: an error is only logged.
unfoldable pub new_auth_basic_file : String → AuthFile → List AuthOpt → AuthController
new_auth_basic_file filename file opts =
    apply_auth_opts opts (record (new_auth_controller filename file).0 { realm = auth_description })

-- `NewAuthTokenOpaque`
unfoldable pub new_auth_token_opaque : String → AuthFile → List AuthOpt → AuthController
new_auth_token_opaque filename file opts =
    apply_auth_opts opts (record (new_auth_controller filename file).0 {
      realm = "/token";
      service = auth_description;
    })

-- The users of the logins, in the order of the loop.
unfoldable pub static_users :
    Bcrypt
    → List (String × String)
    → GoMap String (Option AuthUser)
    → Result (GoMap String (Option AuthUser))
static_users bc [] users = ok users
static_users bc ((user, pass) ∷ logins) users = elim (pass_hash bc pass) [
  | err _ ↦ err (other "failed to hash password")
  | ok hash ↦
      static_users bc logins (GoMap.put user (some (record { cred = hash; groups = [] })) users)
]

abbrev pub logins_acl : List (String × String) → AuthAcl
logins_acl logins = record {
  repo = "*";
  access = read ∷ write ∷ delete ∷ [];
  members = keys logins;
  anonymous = false;
}

abbrev pub anonymous_acl : AuthAcl
anonymous_acl = record { repo = "*"; access = read ∷ []; members = []; anonymous = true }

unfoldable pub static_conf :
    List (String × String) → Bool → GoMap String (Option AuthUser) → AuthConf
static_conf logins allow_anonymous_read users = record {
  users = users;
  groups = [];
  acls = logins_acl logins ∷ (if allow_anonymous_read then anonymous_acl ∷ [] else []);
}

-- `NewAuthBasicStatic`, whose controller has no file
unfoldable pub new_auth_basic_static :
    Bcrypt → List (String × String) → Bool → AuthFile → List AuthOpt → Result AuthController
new_auth_basic_static bc logins allow_anonymous_read file opts =
    let ac =
      apply_auth_opts opts (record (new_auth_controller "" file).0 { realm = auth_description }) in
    elim (static_users bc logins []) [
      | err x ↦ err x
      | ok users ↦ ok (record ac { conf = static_conf logins allow_anonymous_read users })
    ]

matches_repo-star : (acl : AuthAcl) (repo : String) → acl.repo ≡ "*" → matches_repo acl repo ≡ true
unfolding matches_repo
matches_repo-star acl repo h = rw (h, matches_repo) (rw (slice-zero-zero repo) (ground arith))

no_groups :
    (users : GoMap String (Option AuthUser)) (user : String) (members : List String)
    → ((u : String) (au : AuthUser) → GoMap.lookup u users ≡ some (some au) → au.groups ≡ [])
    → member_by_group members (GoMap.lookup user users) ≡ false
unfolding member_by_group any
no_groups users user members fresh = elim (Option-cases (GoMap.lookup user users)) [
  | inl q ↦ rw (q, member_by_group) refl
  | inr (none, q) ↦ rw (q, member_by_group) refl
  | inr (some au, q) ↦ rw (q, member_by_group) (rw (fresh user au q) refl)
]

-- A round of the loop of `checkAccess` at an entry for every repository.
star_step :
    (ac : AuthConf) (repo : String) (access : AuthAccess) (user : String) (acl : AuthAcl)
    (acls : List AuthAcl) (best : String) (result : Bool)
    → acl.repo ≡ "*"
    → leb (len best) 1 ≡ true
    → access_loop ac repo access user (acl ∷ acls) best result ≡ (
        if user_match ac acl user
        then access_loop ac repo access user acls "*" (grants acl access)
        else access_loop ac repo access user acls best result)
unfolding access_loop
star_step ac repo access user acl acls best result h l =
    let width : len acl.repo ≡ 1 = ap (λ x. len x) h in
    ground (arith, h, width, matches_repo-star acl repo h)

-- With a fixed list of logins, a user of the list may read, write and delete everywhere, any other
-- user nothing, and the anonymous user may read, if that is open to it, and nothing else.
pub check_access-static :
    (logins : List (String × String)) (anon : Bool) (users : GoMap String (Option AuthUser))
    (repo user : String) (access : AuthAccess)
    → access ≢ all
    → ((u : String) (au : AuthUser) → GoMap.lookup u users ≡ some (some au) → au.groups ≡ [])
    → check_access (static_conf logins anon users) repo access user ≡ (
        if user == ""
        then (if anon then access == read else false)
        else contains (read ∷ write ∷ delete ∷ []) access && contains (keys logins) user)
unfolding check_access static_conf access_loop user_match grants any
check_access-static logins anon users repo user all n fresh = absurd (n refl)
check_access-static logins true users repo user access n fresh =
    let ac = static_conf logins true users in
    let acl = logins_acl logins in
    ground (
      arith,
      star_step ac repo access user acl (anonymous_acl ∷ []) "" false refl refl,
      star_step ac repo access user anonymous_acl [] "" false refl refl,
      star_step ac repo access user anonymous_acl [] "*" (grants acl access) refl refl,
      no_groups users user (keys logins) fresh,
      no_groups users user [] fresh,
    )
check_access-static logins false users repo user access n fresh =
    let ac = static_conf logins false users in
    ground (
      arith,
      star_step ac repo access user (logins_acl logins) [] "" false refl refl,
      no_groups users user (keys logins) fresh,
    )
