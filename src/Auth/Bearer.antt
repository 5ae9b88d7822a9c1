-- ===== src/Auth/Bearer.antt =====
-- auth/middleware.go: `extractBearerToken`.
pub mod Laws
use txova_go_middleware.Base.{
  Bool, not, List, [], ◌∷◌, ◌==◌, if◌then◌else◌, Text, Text_eq, codes, split_two, equal_fold,
  trim_space, Result, ok, err,
}
use txova_go_middleware.Errors.{Core, token_required}
use txova_go_middleware.Http.Headers.{header_get}
use txova_go_middleware.Http.Program.{Request}

abbrev pub authorization : Text
authorization = codes "Authorization"

abbrev pub bearer : Text
bearer = codes "Bearer"

module _ (core : Core) where
  abbrev pub malformed_header : core.AppError
  malformed_header = core.token_invalid (codes "authorization header must be 'Bearer {token}'")

  abbrev pub empty_token : core.AppError
  empty_token = core.token_invalid (codes "token is empty")

  unfoldable pub token_of : Text → Result core.AppError Text
  token_of part = let token = trim_space part in if token == [] then err empty_token else ok token

  -- `parts`: two parts, the first of which is the scheme.
  unfoldable pub token_of_parts : List Text → Result core.AppError Text
  unfolding token_of
  token_of_parts (scheme ∷ part ∷ []) =
      if not (equal_fold scheme bearer) then err malformed_header else token_of part
  token_of_parts _ = err malformed_header

  unfoldable pub extract_bearer_token : Request → Result core.AppError Text
  unfolding token_of_parts
  extract_bearer_token r =
      let auth_header = header_get r.header authorization in
      if auth_header == []
      then err (token_required core)
      else token_of_parts (split_two auth_header b' ')
