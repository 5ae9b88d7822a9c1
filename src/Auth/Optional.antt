-- ===== src/Auth/Optional.antt =====
-- auth/optional.go: authentication that lets every request through. The options are those of
-- `Middleware`; of the configuration only the validator is read.
pub mod Laws
use txova_go_middleware.Base.{
  not, Option, none, some, List, [], ◌∷◌, ◌==◌, if◌then◌else◌, Text, Text_eq, split_two, equal_fold,
  trim_space, Result, ok, err,
}
use txova_go_middleware.Context.{Claims}
use txova_go_middleware.Errors.{Core, Error}
use txova_go_middleware.Http.Headers.{header_get}
use txova_go_middleware.Http.Logging.{apply_options}
use txova_go_middleware.Http.Program.{
  Request, nil_dereference, Program, throw, ◌>>=◌, Handler, Middleware,
}
use txova_go_middleware.Auth.Bearer.{authorization, bearer}
use txova_go_middleware.Auth.Guard.{serve_claims, TokenValidator, Config}
use txova_go_middleware.Auth.Guard.Making.{configure}

module _ (core : Core) {σ : Type 0} where
  serve_result :
      Handler σ → Request → Result (Error core.AppError) (Option Claims) → Program σ (Unit {0})
  unfolding serve_claims
  serve_result next r (err e) = next r
  serve_result next r (ok claims) = serve_claims next r claims

  -- `cfg.Validator.ValidateToken`, where a nil validator is a panic.
  pub serve_token :
      Option (TokenValidator core σ) → Handler σ → Request → Text → Program σ (Unit {0})
  unfolding serve_result
  serve_token none next r token = throw nil_dereference
  serve_token (some validate) next r token = do
    result ← validate r.context token
    serve_result next r result

  serve_part : Option (TokenValidator core σ) → Handler σ → Request → Text → Program σ (Unit {0})
  unfolding serve_token
  serve_part validator next r part =
      let token = trim_space part in
      if token == [] then next r else serve_token validator next r token

  serve_parts :
      Option (TokenValidator core σ) → Handler σ → Request → List Text → Program σ (Unit {0})
  unfolding serve_part
  serve_parts validator next r (scheme ∷ part ∷ []) =
      if not (equal_fold scheme bearer) then next r else serve_part validator next r part
  serve_parts validator next r _ = next r

  -- The handler that the middleware returns.
  unfoldable pub attempt : Option (TokenValidator core σ) → Middleware σ
  unfolding serve_parts
  attempt validator next r =
      let auth_header = header_get r.header authorization in
      if auth_header == []
      then next r
      else serve_parts validator next r (split_two auth_header b' ')

  -- `OptionalMiddleware(validator, opts...)`
  unfoldable pub optional_middleware :
      Option (TokenValidator core σ) → List (Config core σ → Config core σ) → Middleware σ
  unfolding apply_options
  optional_middleware validator opts =
      let cfg = configure core validator opts in attempt cfg.validator
