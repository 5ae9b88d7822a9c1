-- ===== src/Rbac/Laws/Final.antt =====
-- The guards send final statuses only, if the handler behind them does.
use txova_go_middleware.Base.{
  ℕ, ◌≡◌, ◌≤◌, Bool, true, false, Option, none, some, List, Text, arith, codes, contains, Text_eq,
  ◌==◌, not, [],
}
use txova_go_middleware.Context.{Claims, claims_from_context}
use txova_go_middleware.Errors.{Core}
use txova_go_middleware.Errors.Reply.{encode, set_json_headers}
use txova_go_middleware.Http.Program.{Request, WriteError, Program, Handler}
use txova_go_middleware.Http.Final.{
  SendsFinal, SendsFinal-bind, IsFinal-range, log-SendsFinal, if-SendsFinal,
}
use txova_go_middleware.Http.Logging.{log, apply_options}
use txova_go_middleware.Auth.Claims.{has_any_role}
use txova_go_middleware.Rbac.{
  is_owner, empty_config, Config, Options, log_access_denial, authenticated, checked, fallback,
  write_error, unauthenticated, deny, require_role, require_permission, require_user_type,
  require_owner, require_role_or_owner,
}

log_access_denial-SendsFinal :
    {σ : Type 0} (cfg : Config σ) (r : Request) (reason : Text)
    → SendsFinal (log_access_denial cfg r reason)
unfolding log_access_denial
log_access_denial-SendsFinal cfg r reason =
    SendsFinal-bind (log cfg.logger _) _ (log-SendsFinal cfg.logger _)
      (λ a. log-SendsFinal cfg.audit_logger _)

module _ (core : Core) (σ : Type 0) where
  fallback-SendsFinal :
      (status : ℕ) (e : Option WriteError) → SendsFinal (fallback core {σ = σ} status e)
  unfolding SendsFinal
  fallback-SendsFinal status none = tt
  fallback-SendsFinal status (some e) = λ n failed. tt

  write_error-SendsFinal :
      (err : core.AppError) (status : ℕ)
      → core.status err ≡ status
      → 200 ≤ status
      → status ≤ 999
      → SendsFinal {σ = σ} (write_error core err)
  unfolding write_error encode set_json_headers SendsFinal
  write_error-SendsFinal err status e low high = (
    IsFinal-range (core.status err) status e low high,
    λ n failed. fallback-SendsFinal (core.status err) failed,
  )

module _ (core : Core) {σ : Type 0} where
  deny-SendsFinal :
      (cfg : Config σ) (r : Request) (reason message : Text)
      → SendsFinal (deny core cfg r reason message)
  deny-SendsFinal cfg r reason message =
      SendsFinal-bind (log_access_denial cfg r reason) _ (log_access_denial-SendsFinal cfg r reason)
        (λ a.
          write_error-SendsFinal core σ (core.forbidden message) 403 (core.status-forbidden message)
            (omega arith) (omega arith))

  authenticated-SendsFinal :
      (found : Option Claims × Bool) (k : Option Claims → Program σ (Unit {0}))
      → ((c : Option Claims) → SendsFinal (k c))
      → SendsFinal (authenticated found (unauthenticated core) k)
  authenticated-SendsFinal (c, true) k h = h c
  authenticated-SendsFinal (c, false) k h =
      write_error-SendsFinal core σ (core.invalid_credentials (codes "authentication required")) 401
        (core.status-invalid_credentials (codes "authentication required")) (omega arith)
        (omega arith)

  checked-SendsFinal :
      {A : Type 0} (o : Option A) (k : A → Program σ (Unit {0}))
      → ((a : A) → SendsFinal (k a))
      → SendsFinal (checked o k)
  unfolding SendsFinal
  checked-SendsFinal none k h = tt
  checked-SendsFinal (some a) k h = h a

  module _ (opts : Options σ) (next : Handler σ) (r : Request) (final : SendsFinal (next r)) where
    pub require_role-SendsFinal :
        (roles : List Text) → SendsFinal (require_role core roles opts next r)
    unfolding require_role
    require_role-SendsFinal roles =
        authenticated-SendsFinal (claims_from_context (some r.context)) _
          λ c. checked-SendsFinal _ _ λ held. if-SendsFinal held _ _ final (deny-SendsFinal _ r _ _)

    pub require_permission-SendsFinal :
        (permissions : List Text) → SendsFinal (require_permission core permissions opts next r)
    unfolding require_permission
    require_permission-SendsFinal permissions =
        authenticated-SendsFinal (claims_from_context (some r.context)) _
          λ c. checked-SendsFinal _ _ λ held. if-SendsFinal held _ _ final (deny-SendsFinal _ r _ _)

    pub require_user_type-SendsFinal :
        (types : List Text) → SendsFinal (require_user_type core types opts next r)
    unfolding require_user_type
    require_user_type-SendsFinal types =
        authenticated-SendsFinal (claims_from_context (some r.context)) _ λ found.
          checked-SendsFinal found _
            λ c. if-SendsFinal (contains types c.user_type) _ _ final (deny-SendsFinal _ r _ _)

    module _ (url_param : Request → Text → Text) (param : Text) where
      pub require_owner-SendsFinal : SendsFinal (require_owner core url_param param opts next r)
      unfolding require_owner
      require_owner-SendsFinal =
          authenticated-SendsFinal (claims_from_context (some r.context)) _ λ found.
            if-SendsFinal (url_param r param == []) _ _
              (write_error-SendsFinal core σ (core.validation_error _) 400
                (core.status-validation_error _) (omega arith) (omega arith))
              (checked-SendsFinal found _ λ c.
                if-SendsFinal (not (c.user_id == url_param r param)) _ _ (deny-SendsFinal _ r _ _)
                  final)

      pub require_role_or_owner-SendsFinal :
          (roles : List Text)
          → SendsFinal (require_role_or_owner core url_param param roles opts next r)
      unfolding require_role_or_owner
      require_role_or_owner-SendsFinal roles =
          authenticated-SendsFinal (claims_from_context (some r.context)) _ λ found.
            checked-SendsFinal (has_any_role found roles) _ λ held. if-SendsFinal held _ _ final (
              checked-SendsFinal (is_owner found (url_param r param)) _ λ owner.
                if-SendsFinal owner _ _ final (
                  deny-SendsFinal (apply_options opts empty_config) r
                    (codes "neither role nor owner") (codes "access denied")))
