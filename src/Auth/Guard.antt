-- ===== src/Auth/Guard.antt =====
-- auth/middleware.go: the handler that `Middleware` makes.
pub mod Inputs
pub mod Laws
pub mod Making
pub mod Verified
pub mod Final
use txova_go_middleware.Base.{
  ℕ, Bool, true, false, Option, none, some, List, [], ◌∷◌, ◌==◌, ℕ_eq, if◌then◌else◌, Text, Text_eq,
  codes, contains, Result, ok, err, ◌||◌,
}
use txova_go_middleware.Context.{
  Claims, Context, with_claims, with_user_id, with_user_type, with_roles, request_id_from_context,
}
use txova_go_middleware.Errors.{Core, Error, app, http_status}
use txova_go_middleware.Errors.Reply.{encode, set_json_headers, http_error, status_text}
use txova_go_middleware.ClientIp.{get_client_ip}
use txova_go_middleware.Http.Headers.{header_get}
use txova_go_middleware.Http.Program.{
  Request, WriteError, nil_dereference, nil_context, Program, ret, throw, ◌>>=◌, ◌>>◌, set,
  send_status, Handler, Middleware, with_context,
}
use txova_go_middleware.Http.Logging.{
  error, warn, text, Entry, Logger, AuditLogger, login_failed, log, apply_options,
}
use txova_go_middleware.Auth.Bearer.{extract_bearer_token}

-- A regular expression that was compiled, as the paths that it matches.
abbrev pub Pattern : Type 0
Pattern = Text → Bool

-- The fields of the request that `logAuthFailure` logs besides the reason.
abbrev pub user_agent : Request → Text
user_agent r = header_get r.header (codes "User-Agent")

-- `shouldExclude`
any_match : List Pattern → Text → Bool
any_match [] path = false
any_match (re ∷ patterns) path = re path || any_match patterns path

unfoldable pub should_exclude : Text → List Text → List Pattern → Bool
unfolding any_match
should_exclude path exclude_set patterns =
    if contains exclude_set path then true else any_match patterns path

-- `logAuthFailure`
unfoldable pub log_auth_failure :
    {σ : Type 0}
    → Option (Logger σ)
    → Option (AuditLogger σ)
    → Request
    → Text
    → Program σ (Unit {0})
unfolding log
log_auth_failure logger audit_logger r reason = do
  let ip = get_client_ip r
  log logger (record {
    context = none;
    level = warn;
    message = codes "authentication failed";
    attributes =
        (codes "reason", text reason)
        ∷ (codes "path", text r.path)
        ∷ (codes "method", text r.method)
        ∷ (codes "ip", text ip)
        ∷ (codes "request_id", text (request_id_from_context (some r.context)))
        ∷ [];
  })
  log audit_logger (login_failed r.context [] ip (user_agent r) reason)

-- `len(roles) > 0` fails.
abbrev pub is_empty : List Text → Bool
is_empty [] = true
is_empty (_ ∷ _) = false

-- The values that are put into the context beside the claims; empty ones are left out.
unfoldable pub inject : Context → Claims → Context
inject ctx c =
    let ctx1 = if c.user_id == [] then ctx else with_user_id (some ctx) c.user_id in
    let ctx2 = if c.user_type == [] then ctx1 else with_user_type (some ctx1) c.user_type in
    if is_empty c.roles then ctx2 else with_roles (some ctx2) c.roles

-- From `WithClaims` on, in `OptionalMiddleware` too: a nil context or a nil pointer is a panic.
unfoldable pub serve_claims :
    {σ : Type 0} → Handler σ → Request → Option Claims → Program σ (Unit {0})
serve_claims next r none = throw nil_dereference
serve_claims next r (some c) = elim (with_claims (some r.context) (some c)) [
  | none ↦ throw nil_context
  | some ctx ↦ next (with_context r (inject ctx c))
]

module _ (core : Core) where
  -- `ValidateToken` of a `TokenValidator`, which may draw on the shared state.
  abbrev pub TokenValidator : Type 0 → Type 0
  TokenValidator σ = Context → Text → Program σ (Result (Error core.AppError) (Option Claims))

  pub record Config (σ : Type 0) : Type 0 where
    pub validator : Option (TokenValidator σ)
    pub logger : Option (Logger σ)
    pub audit_logger : Option (AuditLogger σ)
    pub exclude_paths : List Text
    pub exclude_patterns : List Text

  abbrev fallback : {σ : Type 0} → Option WriteError → Program σ (Unit {0})
  fallback none = ret tt
  fallback (some e) = http_error (status_text 401) 401

  -- The status of an error: the middleware's own, or that of the core error.
  abbrev pub error_status : core.AppError → ℕ
  error_status e =
      let status = http_status (core.code e) in if status == 500 then core.status e else status

  -- `writeError`
  unfoldable pub write_error : {σ : Type 0} → Error core.AppError → Program σ (Unit {0})
  unfolding encode set_json_headers
  write_error app_err = do
    set_json_headers
    set (codes "WWW-Authenticate") (codes "Bearer")
    let e = core.from_error app_err
    send_status (error_status e)
    failed ← encode (core.response_json e)
    fallback failed

  module _ {σ : Type 0} where
    pub with_logger : Option (Logger σ) → Config σ → Config σ
    with_logger logger c = record c { logger = logger }

    pub with_audit_logger : Option (AuditLogger σ) → Config σ → Config σ
    with_audit_logger logger c = record c { audit_logger = logger }

    pub with_exclude_paths : List Text → Config σ → Config σ
    with_exclude_paths paths c = record c { exclude_paths = paths }

    pub with_exclude_patterns : List Text → Config σ → Config σ
    with_exclude_patterns patterns c = record c { exclude_patterns = patterns }

    pub fail : Config σ → Request → Text → Error core.AppError → Program σ (Unit {0})
    fail cfg r reason e = do log_auth_failure cfg.logger cfg.audit_logger r reason; write_error e

    serve_result :
        Config σ
        → Handler σ
        → Request
        → Result (Error core.AppError) (Option Claims)
        → Program σ (Unit {0})
    unfolding serve_claims fail
    serve_result cfg next r (ok claims) = serve_claims next r claims
    serve_result cfg next r (err e) = fail cfg r (core.error_text e) e

    -- The body of the handler, once the token was looked for.
    serve_token :
        Config σ
        → TokenValidator σ
        → Handler σ
        → Request
        → Result core.AppError Text
        → Program σ (Unit {0})
    unfolding serve_result fail
    serve_token cfg validate next r (err e) =
        fail cfg r (codes "missing or invalid authorization header") (app e)
    serve_token cfg validate next r (ok token) = do
      result ← validate r.context token
      serve_result cfg next r result

    -- The handler that the middleware returns.
    unfoldable pub handle : Config σ → TokenValidator σ → List Pattern → Middleware σ
    unfolding serve_token
    handle cfg validate patterns next r =
        if should_exclude r.path cfg.exclude_paths patterns
        then next r
        else serve_token cfg validate next r (extract_bearer_token core r)
