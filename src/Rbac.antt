-- ===== src/Rbac.antt =====
-- rbac/rbac.go: the guards for roles, permissions, user types and owners. `url_param` is
-- `chi.URLParam`, which is not part of this repository.
pub mod Answers
pub mod Laws
use txova_go_middleware.Base.{
  ℕ, Bool, true, false, not, ◌&&◌, Option, none, some, List, [], ◌∷◌, ◌==◌, if◌then◌else◌, Text,
  Text_eq, text_eq, codes, contains,
}
use txova_go_middleware.Context.{
  Claims, Context, claims_from_context, user_id_from_context, request_id_from_context,
}
use txova_go_middleware.Errors.{Core}
use txova_go_middleware.Errors.Reply.{encode, set_json_headers, status_text}
use txova_go_middleware.ClientIp.{get_client_ip}
use txova_go_middleware.Http.Program.{
  Request, WriteError, nil_dereference, Program, ret, throw, ◌>>=◌, ◌>>◌, send_status, send,
  Handler, Middleware,
}
use txova_go_middleware.Http.Logging.{
  warn, text, Entry, Logger, AuditLogger, permission_denied, log, apply_options,
}
use txova_go_middleware.Auth.Claims.{has_any_role, has_all_permissions}

pub record Config (σ : Type 0) : Type 0 where
  pub logger : Option (Logger σ)
  pub audit_logger : Option (AuditLogger σ)

abbrev pub Options : Type 0 → Type 0
Options σ = List (Config σ → Config σ)

pub with_logger : {σ : Type 0} → Option (Logger σ) → Config σ → Config σ
with_logger logger c = record c { logger = logger }

pub with_audit_logger : {σ : Type 0} → Option (AuditLogger σ) → Config σ → Config σ
with_audit_logger logger c = record c { audit_logger = logger }

abbrev pub empty_config : {σ : Type 0} → Config σ
empty_config = record { logger = none; audit_logger = none }

-- `logAccessDenial`
unfoldable pub log_access_denial : {σ : Type 0} → Config σ → Request → Text → Program σ (Unit {0})
unfolding log
log_access_denial cfg r reason = do
  let user_id = (user_id_from_context (some r.context)).0
  let request_id = request_id_from_context (some r.context)
  let ip = get_client_ip r
  log cfg.logger (record {
    context = none;
    level = warn;
    message = codes "access denied";
    attributes =
        (codes "reason", text reason)
        ∷ (codes "path", text r.path)
        ∷ (codes "method", text r.method)
        ∷ (codes "user_id", text user_id)
        ∷ (codes "request_id", text request_id)
        ∷ [];
  })
  log cfg.audit_logger (permission_denied r.context user_id r.path r.method ip)

-- What a claims check makes of a pointer that may be nil.
abbrev checked : {σ A : Type 0} → Option A → (A → Program σ (Unit {0})) → Program σ (Unit {0})
checked none k = throw nil_dereference
checked (some a) k = k a

-- `if !ok { … return }` of each guard.
abbrev authenticated :
    {σ : Type 0}
    → Option Claims × Bool
    → Program σ (Unit {0})
    → (Option Claims → Program σ (Unit {0}))
    → Program σ (Unit {0})
authenticated (claims, true) reject k = k claims
authenticated (claims, false) reject k = reject

-- `claims.UserID == ownerID` after `ownerID != "" &&`
abbrev is_owner : Option Claims → Text → Option Bool
is_owner claims owner_id = elim (owner_id == []) [
  | true ↦ some false
  | false ↦ elim claims [ none ↦ none | some c ↦ some (c.user_id == owner_id) ]
]

module _ (core : Core) where
  -- The body that follows a failed encoding.
  abbrev fallback : {σ : Type 0} → ℕ → Option WriteError → Program σ (Unit {0})
  fallback status none = ret tt
  fallback status (some e) = do _ ← send (status_text status); ret tt

  -- `writeError`
  unfoldable pub write_error : {σ : Type 0} → core.AppError → Program σ (Unit {0})
  unfolding encode set_json_headers
  write_error err = do
    set_json_headers
    send_status (core.status err)
    failed ← encode (core.response_json err)
    fallback (core.status err) failed

  module _ {σ : Type 0} where
    -- The answer of every guard to a request without claims.
    abbrev pub unauthenticated : Program σ (Unit {0})
    unauthenticated = write_error (core.invalid_credentials (codes "authentication required"))

    abbrev pub deny : Config σ → Request → Text → Text → Program σ (Unit {0})
    deny cfg r reason message = do
      log_access_denial cfg r reason
      write_error (core.forbidden message)

    -- `RequireRoleWithOptions`
    unfoldable pub require_role : List Text → Options σ → Middleware σ
    unfolding apply_options
    require_role roles opts next r =
        let cfg = apply_options opts empty_config in
        authenticated (claims_from_context (some r.context)) unauthenticated λ claims.
          checked (has_any_role claims roles) λ held.
            if held
            then next r
            else deny cfg r (codes "missing required role") (codes "insufficient permissions")

    -- `RequirePermissionWithOptions`
    unfoldable pub require_permission : List Text → Options σ → Middleware σ
    unfolding apply_options
    require_permission permissions opts next r =
        let cfg = apply_options opts empty_config in
        authenticated (claims_from_context (some r.context)) unauthenticated λ claims.
          checked (has_all_permissions claims permissions) λ held.
            if held
            then next r
            else deny cfg r (codes "missing required permission") (codes "insufficient permissions")

    -- `RequireUserTypeWithOptions`; the set `typeSet` is the list that it is built from.
    unfoldable pub require_user_type : List Text → Options σ → Middleware σ
    unfolding apply_options
    require_user_type types opts next r =
        let cfg = apply_options opts empty_config in
        authenticated (claims_from_context (some r.context)) unauthenticated λ claims.
          checked claims λ c.
            if contains types c.user_type
            then next r
            else deny cfg r (codes "invalid user type") (codes "access denied for user type")

    module _ (url_param : Request → Text → Text) where
      -- `RequireOwnerWithOptions`
      unfoldable pub require_owner : Text → Options σ → Middleware σ
      unfolding apply_options
      require_owner param_name opts next r =
          let cfg = apply_options opts empty_config in
          let owner_id = url_param r param_name in
          authenticated (claims_from_context (some r.context)) unauthenticated λ claims.
            if owner_id == []
            then write_error (core.validation_error (codes "resource owner ID not found in URL"))
            else checked claims λ c.
              if not (c.user_id == owner_id)
              then deny cfg r (codes "not resource owner")
                  (codes "access denied: not resource owner")
              else next r

      -- `RequireRoleOrOwnerWithOptions`
      unfoldable pub require_role_or_owner : Text → List Text → Options σ → Middleware σ
      unfolding apply_options
      require_role_or_owner param_name roles opts next r =
          let cfg = apply_options opts empty_config in
          let owner_id = url_param r param_name in
          authenticated (claims_from_context (some r.context)) unauthenticated λ claims.
            checked (has_any_role claims roles) λ held.
              if held
              then next r
              else checked (is_owner claims owner_id) λ owner.
                if owner
                then next r
                else deny cfg r (codes "neither role nor owner") (codes "access denied")
