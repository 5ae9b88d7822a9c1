-- ===== src/Auth/Guard/Final.antt =====
-- The authentication sends final statuses only, if the validator and the handler behind it do.
use txova_go_middleware.Base.{
  ℕ, ◌≡◌, refl, Option, none, some, List, Text, Text_eq, codes, Result, ok, err, ◌⊎◌, inl, inr,
  ◌==◌, ℕ_eq, if◌then◌else◌,
}
use txova_go_middleware.Context.{Claims, Context, with_claims}
use txova_go_middleware.Errors.{Core, Error, app, http_status}
use txova_go_middleware.Errors.Laws.{http_status_known}
use txova_go_middleware.Errors.Reply.{encode, set_json_headers, http_error}
use txova_go_middleware.Http.Program.{Request, WriteError, Handler}
use txova_go_middleware.Http.Final.{
  IsFinal, SendsFinal, SendsFinal-bind, log-SendsFinal, if-SendsFinal,
}
use txova_go_middleware.Auth.Bearer.{extract_bearer_token}
use txova_go_middleware.Auth.Guard.{
  Pattern, TokenValidator, Config, should_exclude, log_auth_failure, serve_claims, fallback,
  error_status, write_error, fail, serve_result, serve_token, handle,
}

log_auth_failure-SendsFinal :
    {core : Core} {σ : Type 0} (cfg : Config core σ) (r : Request) (reason : Text)
    → SendsFinal (log_auth_failure cfg.logger cfg.audit_logger r reason)
unfolding log_auth_failure
log_auth_failure-SendsFinal cfg r reason =
    SendsFinal-bind _ _ (log-SendsFinal cfg.logger _) (λ a. log-SendsFinal cfg.audit_logger _)

serve_claims-SendsFinal :
    {σ : Type 0} (next : Handler σ) (r : Request) (claims : Option Claims)
    → ((r' : Request) → SendsFinal (next r'))
    → SendsFinal (serve_claims next r claims)
unfolding serve_claims SendsFinal with_claims
serve_claims-SendsFinal next r none final = tt
serve_claims-SendsFinal next r (some c) final = final _

-- Every error of txova-go-core has a final status.
abbrev pub HasFinalStatuses : Core → Type 0
HasFinalStatuses core = (e : core.AppError) → IsFinal (core.status e)

-- The status of the middleware's answer is final, too.
choice-IsFinal :
    (status other : ℕ)
    → (status ≡ 401) ⊎ (status ≡ 503) ⊎ (status ≡ 500)
    → IsFinal other
    → IsFinal (if status == 500 then other else status)
choice-IsFinal status other (inl same) h = rw same (refl, refl)
choice-IsFinal status other (inr (inl same)) h = rw same (refl, refl)
choice-IsFinal status other (inr (inr same)) h = rw same h

error_status-IsFinal :
    (core : Core) → HasFinalStatuses core → (e : core.AppError) → IsFinal (error_status core e)
error_status-IsFinal core finals e =
    choice-IsFinal (http_status (core.code e)) (core.status e) (http_status_known (core.code e))
      (finals e)

module _ (core : Core) (finals : HasFinalStatuses core) (σ : Type 0) where
  fallback-SendsFinal : (e : Option WriteError) → SendsFinal (fallback core {σ = σ} e)
  unfolding SendsFinal http_error
  fallback-SendsFinal none = tt
  fallback-SendsFinal (some e) = ((refl, refl), λ n failed. tt)

  write_error-SendsFinal : (e : Error core.AppError) → SendsFinal {σ = σ} (write_error core e)
  unfolding write_error encode set_json_headers SendsFinal
  write_error-SendsFinal e =
      (error_status-IsFinal core finals (core.from_error e), λ n failed. fallback-SendsFinal failed)

module _ (core : Core) (finals : HasFinalStatuses core) {σ : Type 0} (cfg : Config core σ)
    (validate : TokenValidator core σ) (patterns : List Pattern)
    (validates : (ctx : Context) (token : Text) → SendsFinal (validate ctx token))
    (next : Handler σ) (final : (r : Request) → SendsFinal (next r)) (r : Request) where
  fail-SendsFinal :
      (reason : Text) (e : Error core.AppError) → SendsFinal (fail core cfg r reason e)
  unfolding fail
  fail-SendsFinal reason e =
      SendsFinal-bind (log_auth_failure cfg.logger cfg.audit_logger r reason) _
        (log_auth_failure-SendsFinal cfg r reason) (λ a. write_error-SendsFinal core finals σ e)

  serve_result-SendsFinal :
      (result : Result (Error core.AppError) (Option Claims))
      → SendsFinal (serve_result core cfg next r result)
  unfolding serve_result
  serve_result-SendsFinal (ok claims) = serve_claims-SendsFinal next r claims final
  serve_result-SendsFinal (err e) = fail-SendsFinal (core.error_text e) e

  serve_token-SendsFinal :
      (found : Result core.AppError Text) → SendsFinal (serve_token core cfg validate next r found)
  unfolding serve_token
  serve_token-SendsFinal (err e) =
      fail-SendsFinal (codes "missing or invalid authorization header") (app e)
  serve_token-SendsFinal (ok token) =
      SendsFinal-bind (validate r.context token) _ (validates r.context token)
        serve_result-SendsFinal

  pub handle-SendsFinal : SendsFinal (handle core cfg validate patterns next r)
  unfolding handle
  handle-SendsFinal =
      if-SendsFinal (should_exclude r.path cfg.exclude_paths patterns) _ _ (final r)
        (serve_token-SendsFinal (extract_bearer_token core r))
