-- ===== src/Auth/Tokens.antt =====
-- config/auth.go: the opaque tokens. The background job is its rounds: each removes the tokens that
-- have expired.
use Prim.Native.String.{len, slice}
use text.Mathlib.Text.{starts_with}
use olareg.Shared.{
  ℕ, ◌+◌, String, List, [], ◌∷◌, Option, none, some, Bool, true, false, not, ◌==◌,
  string_comparable, leb, if◌then◌else◌,
}
use olareg.Shared.GoMap
use olareg.Shared.GoMap.{GoMap}
use olareg.Types.Error.{Result, ok, err}
use olareg.Auth.{AuthAccess, Bcrypt, check_access}
use olareg.Auth.Handlers.{
  AuthTokenOpaque, AuthController, AuthFile, AuthRequest, Quote, Outcome, next, status, get_conf,
  token_expire, unauthorized, scope_of, refused, user_name,
}

-- `strings.CutPrefix(authHeader, "Bearer ")`
unfoldable pub bearer : String → Option String
bearer header = if starts_with header "Bearer " then some (slice header 7 (len header)) else none

-- The user of a token that is known and has not expired, else the anonymous one.
unfoldable pub token_user : ℕ → String → GoMap String AuthTokenOpaque → String
token_user now token opaque = elim (GoMap.lookup token opaque) [
  | none ↦ ""
  | some ato ↦ if leb now ato.expires then ato.user else ""
]

-- What `tokenOpaqueHandler` does once it has the configuration and the text of the realm.
unfoldable pub token_outcome :
    Quote → ℕ → AuthController → String → String → AuthAccess → AuthRequest → Outcome
token_outcome quote now ac realm repo access r =
    let denied =
      unauthorized quote "Bearer" realm ac.service (scope_of repo access) "unauthorized" in
    elim (bearer r.authorization) [
      | none ↦ denied
      | some token ↦
          if check_access ac.conf repo access (token_user now token ac.opaque) then next else denied
    ]

-- `tokenOpaqueHandler`; `parse_url` is `r.URL.Parse` and `String` of its result.
unfoldable pub token_opaque_handler :
    Quote
    → (String → Result String)
    → ℕ
    → AuthFile
    → String
    → AuthAccess
    → AuthRequest
    → AuthController
    → AuthController × Outcome
token_opaque_handler quote parse_url now file repo access r ac =
    let ac' = (get_conf now file ac).0 in
    (
      ac',
      elim (parse_url ac.realm) [
        | err _ ↦ status 500
        | ok realm ↦ token_outcome quote now ac' realm repo access r
      ],
    )

pub record AuthTokenResponse : Type 0 where
  pub token : String
  pub expires_in : ℕ
  pub issued_at : ℕ

pub data TokenOutcome : Type 0 where
  issued : AuthTokenResponse → TokenOutcome
  refusal : ℕ → TokenOutcome
  panic : TokenOutcome

abbrev issue : ℕ → String → String → AuthController → AuthController
issue now token user ac = record ac {
  opaque = GoMap.put token (record { user = user; expires = now + token_expire }) ac.opaque;
}

-- `tokenOpaqueGenerate`; `random` is the text of the random bytes.
unfoldable pub token_opaque_generate :
    Bcrypt
    → ℕ
    → AuthFile
    → Result String
    → AuthRequest
    → AuthController
    → AuthController × TokenOutcome
token_opaque_generate bc now file random r ac =
    let ac' = (get_conf now file ac).0 in
    if not r.is_get
    then (ac, refusal 405)
    else if not (r.service == ac.service)
    then (ac', refusal 403)
    else (elim (refused bc ac'.conf r.basic) [
      | none ↦ (ac', panic)
      | some true ↦ (ac', refusal 403)
      | some false ↦ elim random [
        | err _ ↦ (ac', refusal 500)
        | ok token ↦ (
          issue now token (user_name r.basic) ac',
          issued (record { token = token; expires_in = token_expire; issued_at = now }),
        )
      ]
    ])

-- `time.Since(ato.expires) > 0`
abbrev pub is_expired : ℕ → Option AuthTokenOpaque → Bool
is_expired now none = false
is_expired now (some ato) = not (leb now ato.expires)

-- The tokens to delete, where the loop meets the tokens in the order `order`.
unfoldable pub expired_tokens : ℕ → List String → GoMap String AuthTokenOpaque → List String
expired_tokens now [] opaque = []
expired_tokens now (token ∷ rest) opaque =
    let later = expired_tokens now rest opaque in
    if is_expired now (GoMap.lookup token opaque) then token ∷ later else later

unfoldable pub delete_tokens :
    List String → GoMap String AuthTokenOpaque → GoMap String AuthTokenOpaque
delete_tokens [] opaque = opaque
delete_tokens (token ∷ rest) opaque = delete_tokens rest (GoMap.delete token opaque)

abbrev no_tokens : GoMap String AuthTokenOpaque → Bool
no_tokens [] = true
no_tokens (_ ∷ _) = false

-- A round of `tokenOpaqueCleanup`, and whether the job then stops.
unfoldable pub token_opaque_cleanup : ℕ → List String → AuthController → AuthController × Bool
token_opaque_cleanup now order ac =
    let left = delete_tokens (expired_tokens now order ac.opaque) ac.opaque in
    elim (expired_tokens now order ac.opaque) [
      | [] ↦ (ac, false)
      | _ ∷ _ ↦ (record ac { opaque = left }, no_tokens left)
    ]
