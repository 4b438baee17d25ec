-- ===== src/Auth.antt =====
-- config/auth.go: who may do what with a repository. A map is an association list, a set of groups a
-- list of their names, and a nil pointer among the users or the groups is `none`. Passwords are
-- checked by package bcrypt, which is not part of the repository: its test is a parameter.
pub mod Rules
pub mod Groups
pub mod Membership
pub mod Handlers
pub mod Tokens
pub mod Guards
pub mod Static
mod Tests
use Prim.Native.String.{len, slice}
use text.Mathlib.Text.{starts_with}
use olareg.Shared.{
  ℕ, ◌-◌, String, List, [], ◌∷◌, Option, none, some, Bool, true, false, ◌&&◌, ◌||◌, not, Comparable,
  ◌==◌, string_comparable, nat_eqb, leb, ltb, if◌then◌else◌, ◌≡◌, ◌↔◌, refl, arith,
}
use olareg.Shared.GoMap
use olareg.Shared.GoMap.{GoMap}
use olareg.Shared.Slices.{any}
use olareg.Shared.Members.{contains}
use olareg.Types.Error.{Error, Result, ok, err, other}

pub data AuthAccess : Type 0 where
  unknown read write delete all : AuthAccess

abbrev pub access_number : AuthAccess → ℕ
access_number unknown = 0
access_number read = 1
access_number write = 2
access_number delete = 3
access_number all = 4

abbrev pub access_equal : AuthAccess → AuthAccess → Bool
access_equal a b = nat_eqb (access_number a) (access_number b)

pub access_equal_iff : (a b : AuthAccess) → (access_equal a b ≡ true) ↔ (a ≡ b)
access_equal_iff a b = ground arith

instance abbrev pub access_comparable : Comparable AuthAccess
access_comparable = record { equal = access_equal; equal_iff = access_equal_iff }

-- `MarshalText`, which never fails
unfoldable pub marshal_access : AuthAccess → String
marshal_access unknown = ""
marshal_access read = "read"
marshal_access write = "write"
marshal_access delete = "delete"
marshal_access all = "*"

-- `UnmarshalText`; `to_lower` is `strings.ToLower`.
unfoldable pub unmarshal_access : (String → String) → String → Result AuthAccess
unmarshal_access to_lower b =
    let s = to_lower b in
    if s == ""
    then ok unknown
    else if s == "read"
    then ok read
    else if s == "write"
    then ok write
    else if s == "delete"
    then ok delete
    else if s == "*"
    then ok all
    else err (other "unknown TLS value")

pub record AuthUser : Type 0 where
  pub cred : String
  pub groups : List String

pub record AuthGroup : Type 0 where
  pub members : List String

pub record AuthAcl : Type 0 where
  pub repo : String
  pub access : List AuthAccess
  pub members : List String
  pub anonymous : Bool

pub record AuthConf : Type 0 where
  pub users : GoMap String (Option AuthUser)
  pub groups : GoMap String (Option AuthGroup)
  pub acls : List AuthAcl

-- `strings.HasSuffix`
unfoldable pub has_suffix : String → String → Bool
has_suffix s t = leb (len t) (len s) && slice s (len s - len t) (len s) == t

-- `acl.Repo == repo`, or it ends in a star and what stands before the star begins `repo`
unfoldable pub matches_repo : AuthAcl → String → Bool
unfolding has_suffix
matches_repo acl repo =
    acl.repo == repo
    || has_suffix acl.repo "*" && starts_with repo (slice acl.repo 0 (len acl.repo - 1))

-- `for group := range ac.Users[user].groups { … }`, with a nil user or a missing one
unfoldable pub member_by_group : List String → Option (Option AuthUser) → Bool
member_by_group members (some (some u)) = any (λ group. contains members group) u.groups
member_by_group members _ = false

unfoldable pub user_match : AuthConf → AuthAcl → String → Bool
unfolding member_by_group
user_match ac acl user =
    if user == ""
    then acl.anonymous
    else contains acl.members user || member_by_group acl.members (GoMap.lookup user ac.users)

unfoldable pub grants : AuthAcl → AuthAccess → Bool
grants acl access = contains acl.access access || contains acl.access all

-- The loop of `checkAccess`.
unfoldable pub access_loop :
    AuthConf → String → AuthAccess → String → List AuthAcl → String → Bool → Bool
access_loop ac repo access user [] best_repo result = result
access_loop ac repo access user (acl ∷ acls) best_repo result =
    let skip = ltb (len acl.repo) (len best_repo) || not (matches_repo acl repo) in
    let next = not skip && user_match ac acl user in
    access_loop ac repo access user acls (if next then acl.repo else best_repo)
      (if next then grants acl access else result)

unfoldable pub check_access : AuthConf → String → AuthAccess → String → Bool
unfolding access_loop
check_access ac repo access user = access_loop ac repo access user ac.acls "" false

-- Package bcrypt, and `passHashEmpty`, which is made with it.
pub record Bcrypt : Type 0 where
  pub compare_hash : String → String → Bool
  pub generate : String → Result String

unfoldable pub pass_validate : Bcrypt → String → String → Bool
pass_validate bc input hash =
    if starts_with hash "$2y$"
      || starts_with hash "$2a$"
      || starts_with hash "$2b$"
      || starts_with hash "$2x$"
    then bc.compare_hash hash input
    else false

-- `PassHash`, for any algorithm
abbrev pub pass_hash : Bcrypt → String → Result String
pass_hash bc input = bc.generate input

-- `checkCreds`; `none` where it dereferences a nil user.
unfoldable pub check_creds : Bcrypt → AuthConf → String → String → Option Bool
check_creds bc ac user pass = elim (GoMap.lookup user ac.users) [
  | some (some creds) ↦ some (pass_validate bc pass creds.cred)
  | some none ↦ none
  | none ↦ some false
]
