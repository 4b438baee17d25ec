-- ===== src/Auth/Guards.antt =====
-- Who reaches the next handler (config/auth.go).
use olareg.Shared.{
  ℕ, ◌+◌, ◌≤◌, String, List, [], ◌∷◌, none, some, true, ◌&&◌, ◌≡◌, ◌≢◌, refl, ap, arith, ◌==◌,
  ==_iff, string_comparable, leb, if◌then◌else◌, Bool-cases, Option-cases, inl, inr,
}
use olareg.Shared.GoMap
use olareg.Shared.GoMap.{GoMap, lookup-put, lookup-delete}
use olareg.Shared.Slices.{any}
use olareg.Shared.Members.{contains}
use olareg.Types.Error.{Result, Result-cases}
use olareg.Auth.{
  AuthAccess, AuthUser, Bcrypt, matches_repo, user_match, grants, check_access, check_creds,
  pass_validate,
}
use olareg.Auth.Rules.{check_access-granted}
use olareg.Auth.Handlers.{
  AuthTokenOpaque, AuthController, AuthFile, AuthRequest, Quote, next, get_conf, token_expire,
  unauthorized, refused, user_name, basic_outcome, basic_handler,
}
use olareg.Auth.Tokens.{
  token_user, expired_tokens, delete_tokens, token_opaque_cleanup, token_opaque_generate, issued,
  is_expired, AuthTokenResponse,
}

module _ (bc : Bcrypt) (quote : Quote) (now : ℕ) (file : AuthFile) (repo : String)
    (access : AuthAccess) (r : AuthRequest) (ac : AuthController) where
  -- A request with a user's name reaches the next handler only if that user is configured, with a
  -- password that is valid, and has the access.
  pub basic_handler-next :
      (user pass : String)
      → r.basic ≡ some (user, pass)
      → user ≢ ""
      → (basic_handler bc quote now file repo access r ac).1 ≡ some next
      → (creds : AuthUser) × (GoMap.lookup user (get_conf now file ac).0.conf.users
          ≡ some (some creds))
        × (pass_validate bc pass creds.cred ≡ true)
        × (check_access (get_conf now file ac).0.conf repo access user ≡ true)
  unfolding basic_handler basic_outcome refused unauthorized check_creds
  basic_handler-next user pass b n h =
      elim (Option-cases (GoMap.lookup user (get_conf now file ac).0.conf.users)) [
        | inl q ↦ ground (arith, ==_iff user "")
        | inr (none, q) ↦ ground (arith, ==_iff user "")
        | inr (some creds, q) ↦
            (creds, q, ground (arith, ==_iff user ""), ground (arith, ==_iff user ""))
      ]

  -- A request without credentials reaches the next handler only if an entry of the access list that
  -- admits anonymous users grants the access to the repository.
  pub basic_handler-next_anonymous :
      r.basic ≡ none
      → (basic_handler bc quote now file repo access r ac).1 ≡ some next
      → any
          (λ a. (matches_repo a repo && a.anonymous) && grants a access)
          (get_conf now file ac).0.conf.acls
        ≡ true
  unfolding basic_handler basic_outcome refused unauthorized user_match
  basic_handler-next_anonymous b h =
      check_access-granted (get_conf now file ac).0.conf repo access "" (ground arith)

lookup-delete_tokens :
    (ts : List String) (j : String) (m : GoMap String AuthTokenOpaque)
    → GoMap.lookup j (delete_tokens ts m) ≡ (if contains ts j then none else GoMap.lookup j m)
unfolding delete_tokens any
lookup-delete_tokens [] j m = refl
lookup-delete_tokens (t ∷ ts) j m =
    ground (arith, lookup-delete_tokens ts j (GoMap.delete t m), lookup-delete t j m)

contains-expired_tokens :
    (now : ℕ) (order : List String) (j : String) (m : GoMap String AuthTokenOpaque)
    → contains (expired_tokens now order m) j
      ≡ (contains order j && is_expired now (GoMap.lookup j m))
unfolding expired_tokens any
contains-expired_tokens now [] j m = refl
contains-expired_tokens now (t ∷ order) j m = elim (Bool-cases (t == j)) [
  | inl q ↦
      let same = ap (λ x. is_expired now (GoMap.lookup x m)) ((==_iff t j).0 q) in
      ground (arith, same, contains-expired_tokens now order j m)
  | inr q ↦ ground (arith, contains-expired_tokens now order j m)
]

-- A round of the cleanup changes no token's user, then or later.
pub token_user-cleanup :
    (earlier later : ℕ) (order : List String) (token : String) (ac : AuthController)
    → earlier ≤ later
    → token_user later token (token_opaque_cleanup earlier order ac).0.opaque
      ≡ token_user later token ac.opaque
unfolding token_user token_opaque_cleanup
token_user-cleanup earlier later order token ac h =
    let gone = expired_tokens earlier order ac.opaque in
    ground (
      arith,
      lookup-delete_tokens gone token ac.opaque,
      contains-expired_tokens earlier order token ac.opaque,
    )

-- A token that is issued stands for the user of its request until it expires, and for nobody
-- afterwards.
pub token_user-generate :
    (bc : Bcrypt) (file : AuthFile) (random : Result String) (r : AuthRequest) (ac : AuthController)
    (issued_at later : ℕ) (response : AuthTokenResponse)
    → (token_opaque_generate bc issued_at file random r ac).1 ≡ issued response
    → token_user later response.token (token_opaque_generate bc issued_at file random r ac).0.opaque
      ≡ (if leb later (issued_at + token_expire) then user_name r.basic else "")
unfolding token_user token_opaque_generate
token_user-generate bc file random r ac t later response h =
    let ac' = (get_conf t file ac).0 in
    elim (Result-cases random) [
      | inl (x, q) ↦ ground arith
      | inr (token, q) ↦ ground (
        arith,
        ==_iff token token,
        lookup-put token token (record { user = user_name r.basic; expires = t + token_expire })
            ac'.opaque,
      )
    ]
