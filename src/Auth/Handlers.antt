-- ===== src/Auth/Handlers.antt =====
-- config/auth.go: the controller, its configuration file, and the handler of basic authentication. A
-- method runs alone, as the mutex has it. A handler's outcome is what it does with the response: it
-- calls the next handler or writes a status, with a challenge on 401.
use olareg.Shared.{
  ℕ, suc, ◌+◌, ◌*◌, String, [], Option, none, some, Bool, true, false, ◌||◌, not, ◌==◌,
  string_comparable, nat_eqb, ltb, if◌then◌else◌,
}
use Prim.Native.String.{◌++◌ as join}
use olareg.Shared.GoMap.{GoMap, keys}
use olareg.Shared.Slices.{length}
use olareg.Types.Error.{Error, Result, ok, err, not_found, parsing_failed}
use olareg.Auth.{AuthAccess, read, write, delete, AuthConf, Bcrypt, check_access, check_creds}
use olareg.Auth.Groups.{map_groups}
use olareg.Config.{second, minute}

abbrev pub poll_freq : ℕ
poll_freq = 5 * second

abbrev pub token_expire : ℕ
token_expire = 5 * minute

pub record AuthTokenOpaque : Type 0 where
  pub user : String
  pub expires : ℕ

-- `modified` and `poll` are 0 for the zero time.
pub record AuthController : Type 0 where
  pub filename : String
  pub modified : ℕ
  pub poll : ℕ
  pub conf : AuthConf
  pub realm : String
  pub service : String
  pub opaque : GoMap String AuthTokenOpaque

-- The file: its time of modification, and what opening and decoding it give. The end of the file is
-- no error of the decoder.
pub record AuthFile : Type 0 where
  pub stat : Result ℕ
  pub opened : Option Error
  pub decoded : Result AuthConf

abbrev pub new_auth_conf : AuthConf
new_auth_conf = record { users = []; groups = []; acls = [] }

-- `newAuthController`
unfoldable pub new_auth_controller : String → AuthFile → AuthController × Option Error
new_auth_controller filename file =
    let ac : AuthController = record {
      filename = filename;
      modified = 0;
      poll = 0;
      conf = new_auth_conf;
      realm = "";
      service = "";
      opaque = [];
    } in
    if filename == ""
    then (ac, none)
    else (elim file.stat [ ok _ ↦ (ac, none) | err _ ↦ (ac, some not_found) ])

-- The groups of a configuration go no deeper than there are groups.
abbrev pub load_groups : AuthConf → AuthConf
load_groups afc = map_groups (suc (length (keys afc.groups))) (keys afc.groups) afc

-- The part of `getConf` that reads a file that has changed.
unfoldable pub reload : AuthFile → AuthController → AuthController × Option Error
reload file ac = elim file.opened [
  | some x ↦ (ac, some x)
  | none ↦ elim file.decoded [
    | err _ ↦ (ac, some parsing_failed)
    | ok afc ↦ (record ac { conf = load_groups afc }, none)
  ]
]

-- `getConf`: the configuration that it returns is that of the controller.
unfoldable pub get_conf : ℕ → AuthFile → AuthController → AuthController × Option Error
get_conf now file ac =
    let polled = record ac { poll = now } in
    if ac.filename == "" || ltb now (ac.poll + poll_freq) then (ac, none) else (elim file.stat [
      | err _ ↦ (polled, some not_found)
      | ok t ↦
          if nat_eqb ac.modified t
          then (polled, none)
          else reload file (record ac { poll = now; modified = t })
    ])

pub data Outcome : Type 0 where
  next : Outcome
  status : ℕ → Outcome
  challenge : String → Outcome

-- `r.BasicAuth()`, the header `Authorization`, and the query of the token request
pub record AuthRequest : Type 0 where
  pub basic : Option (String × String)
  pub authorization : String
  pub is_get : Bool
  pub service : String

-- The verb `%q` of package fmt
abbrev pub Quote : Type 0
Quote = String → String

abbrev pub field : Quote → String → String → String
field quote name value = if value == "" then "" else join name (quote value)

-- `unauthorized` with the answers of its callers to its error
unfoldable pub unauthorized : Quote → String → String → String → String → String → Outcome
unauthorized quote auth_type realm service scope msg =
    if auth_type == "" || realm == ""
    then status 500
    else challenge (
        join (join auth_type (join " realm=" (quote realm))) (
          join (field quote ",service=" service)
            (join (field quote ",scope=" scope) (field quote ",error=" msg))))

abbrev pub action : AuthAccess → String
action read = ":pull"
action write = ":push"
action delete = ":delete"
action _ = ""

unfoldable pub scope_of : String → AuthAccess → String
scope_of repo access =
    join (if repo == "" then "registry:" else join "repository:" repo) (action access)

-- The credentials of a request are refused: `none` where `checkCreds` fails on a nil user.
unfoldable pub refused : Bcrypt → AuthConf → Option (String × String) → Option Bool
refused bc conf none = some false
refused bc conf (some (user, pass)) =
    if not (user == "") || not (pass == "")
    then (elim (check_creds bc conf user pass) [ none ↦ none | some b ↦ some (not b) ])
    else some false

abbrev pub user_name : Option (String × String) → String
user_name none = ""
user_name (some (user, pass)) = user

-- What `basicHandler` does once it has the configuration; `none` is a panic.
unfoldable pub basic_outcome :
    Bcrypt → Quote → AuthController → String → AuthAccess → AuthRequest → Option Outcome
basic_outcome bc quote ac repo access r = elim (refused bc ac.conf r.basic) [
  | none ↦ none
  | some true ↦
      some (
        unauthorized quote "Basic" ac.realm "" (scope_of repo access)
          "invalid username or password")
  | some false ↦
      if check_access ac.conf repo access (user_name r.basic)
      then some next
      else some (unauthorized quote "Basic" ac.realm "" (scope_of repo access) "unauthorized")
]

-- `basicHandler`, for a controller that is not nil
unfoldable pub basic_handler :
    Bcrypt
    → Quote
    → ℕ
    → AuthFile
    → String
    → AuthAccess
    → AuthRequest
    → AuthController
    → AuthController × Option Outcome
basic_handler bc quote now file repo access r ac =
    let ac' = (get_conf now file ac).0 in (ac', basic_outcome bc quote ac' repo access r)
