-- ===== src/Auth/Rules.antt =====
-- Which entry of the access list decides, and the texts of the kinds of access (config/auth.go).
use Prim.Native.String.{len}
use olareg.Shared.{
  ℕ, String, List, [], ◌∷◌, ◌++◌, Bool, true, false, ◌&&◌, ◌||◌, ◌≡◌, ◌≤◌, refl, ap, ◌∙◌, arith,
  leb, ltb, string_comparable,
}
use olareg.Shared.Slices.{any}
use olareg.Types.Error.{ok}
use olareg.Auth.{
  AuthAccess, unknown, read, write, delete, all, AuthAcl, AuthConf, matches_repo, user_match,
  grants, access_loop, check_access, marshal_access, unmarshal_access,
}

-- An entry is for the repository and for the user.
abbrev pub applies : AuthConf → String → String → AuthAcl → Bool
applies ac repo user acl = matches_repo acl repo && user_match ac acl user

module _ (ac : AuthConf) (repo : String) (access : AuthAccess) (user : String) where
  -- An entry for the repository and the user, with a longer pattern than `n` bytes, or one as long.
  abbrev pub longer : ℕ → List AuthAcl → Bool
  longer n acls = any (λ a. applies ac repo user a && ltb n (len a.repo)) acls

  abbrev pub as_long : ℕ → List AuthAcl → Bool
  as_long n acls = any (λ a. applies ac repo user a && leb n (len a.repo)) acls

  access_loop-kept :
      (acls : List AuthAcl) (best : String) (result : Bool)
      → as_long (len best) acls ≡ false
      → access_loop ac repo access user acls best result ≡ result
  unfolding access_loop any
  access_loop-kept [] best result h = refl
  access_loop-kept (a ∷ acls) best result h = ground (arith, access_loop-kept acls best result)

  access_loop-decided :
      (before after : List AuthAcl) (acl : AuthAcl) (best : String) (result : Bool)
      → applies ac repo user acl ≡ true
      → longer (len acl.repo) before ≡ false
      → as_long (len acl.repo) after ≡ false
      → len best ≤ len acl.repo
      → access_loop ac repo access user (before ++ acl ∷ after) best result ≡ grants acl access
  unfolding access_loop any
  access_loop-decided [] after acl best result h p q l =
      ground (arith, access_loop-kept after acl.repo (grants acl access))
  access_loop-decided (a ∷ before) after acl best result h p q l = ground (
    arith,
    access_loop-decided before after acl best result h,
    access_loop-decided before after acl a.repo (grants a access) h,
  )

  -- The entry that decides is the last of those with the longest pattern among the entries for the
  -- repository and the user: access is granted as it says.
  pub check_access-decided :
      (before after : List AuthAcl) (acl : AuthAcl)
      → ac.acls ≡ before ++ acl ∷ after
      → applies ac repo user acl ≡ true
      → longer (len acl.repo) before ≡ false
      → as_long (len acl.repo) after ≡ false
      → check_access ac repo access user ≡ grants acl access
  unfolding check_access
  check_access-decided before after acl e h p q =
      ap (λ acls. access_loop ac repo access user acls "" false) e
      ∙ access_loop-decided before after acl "" false h p q (omega arith)

  access_loop-granted :
      (acls : List AuthAcl) (best : String) (result : Bool)
      → access_loop ac repo access user acls best result ≡ true
      → (result || any (λ a. applies ac repo user a && grants a access) acls) ≡ true
  unfolding access_loop any
  access_loop-granted [] best result h = ground arith
  access_loop-granted (a ∷ acls) best result h = ground (
    arith,
    access_loop-granted acls best result,
    access_loop-granted acls a.repo (grants a access),
  )

  -- Access that is granted is granted by an entry for the repository and the user.
  pub check_access-granted :
      check_access ac repo access user ≡ true
      → any (λ a. applies ac repo user a && grants a access) ac.acls ≡ true
  unfolding check_access
  check_access-granted h = access_loop-granted ac.acls "" false h

-- The text of a kind of access is read back as it, where lower case leaves the texts as they are.
pub unmarshal-marshal_access :
    (to_lower : String → String) (a : AuthAccess)
    → to_lower "" ≡ ""
    → to_lower "read" ≡ "read"
    → to_lower "write" ≡ "write"
    → to_lower "delete" ≡ "delete"
    → to_lower "*" ≡ "*"
    → unmarshal_access to_lower (marshal_access a) ≡ ok a
unfolding unmarshal_access marshal_access
unmarshal-marshal_access to_lower unknown n r w d s = rw n refl
unmarshal-marshal_access to_lower read n r w d s = rw r refl
unmarshal-marshal_access to_lower write n r w d s = rw w refl
unmarshal-marshal_access to_lower delete n r w d s = rw d refl
unmarshal-marshal_access to_lower all n r w d s = rw s refl
