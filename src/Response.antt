-- ===== src/Response.antt =====
-- What the handlers answer where they fail: a status, and the code in the body where they write one.
use olareg.Shared.{ℕ, String, Option, none, some}
use olareg.Types.Error.{Error, repo_not_allowed}

pub record Failure : Type 0 where
  pub status : ℕ
  pub code : Option String

abbrev pub failure : ℕ → String → Failure
failure status code = record { status = status; code = some code }

abbrev pub bare_failure : ℕ → Failure
bare_failure status = record { status = status; code = none }

-- The answer to an error of `RepoGet`, the same in every handler.
unfoldable pub repo_failure : Error → Failure
repo_failure repo_not_allowed = failure 400 "NAME_INVALID"
repo_failure _ = bare_failure 500
