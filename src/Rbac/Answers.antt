-- ===== src/Rbac/Answers.antt =====
-- How the guards refuse a request, and when a user is an owner.
use txova_go_middleware.Base.{
  ℕ, ◌≡◌, ◌≢◌, ◌≤◌, true, false, Option, none, some, List, [], arith, Holds, Text, Text_eq,
  text_eq_iff, codes, contains, contains_iff, ◌⊎◌,
}
use txova_go_middleware.Context.{Claims}
use txova_go_middleware.Errors.{Core}
use txova_go_middleware.Errors.Reply.{status_text}
use txova_go_middleware.Http.Program.{Request, WriteError}
use txova_go_middleware.Http.Refusal.{
  Answers, IsSilent, log-IsSilent, IsSilent-bind, Answers-after_silent,
}
use txova_go_middleware.Http.JsonReply.{IsTail, ret-IsTail, send-IsTail, Answers-json}
use txova_go_middleware.Rbac.{
  Config, is_owner, log_access_denial, write_error, fallback, unauthenticated, deny,
}

pub contains-eq-false : (xs : List Text) (x : Text) → ¬ Holds xs x → contains xs x ≡ false
contains-eq-false xs x h = ground (arith, contains_iff xs x)

pub is_owner_of_eq :
    (c : Claims) (owner : Text)
    → owner ≢ []
    → owner ≡ c.user_id
    → is_owner (some c) owner ≡ some true
is_owner_of_eq c owner given same =
    ground (arith, text_eq_iff owner [], text_eq_iff c.user_id owner)

pub not-is_owner :
    (c : Claims) (owner : Text)
    → (owner ≡ []) ⊎ (owner ≢ c.user_id)
    → is_owner (some c) owner ≡ some false
not-is_owner c owner h = ground (arith, text_eq_iff owner [], text_eq_iff c.user_id owner)

-- Logging a denial leaves the response alone.
log_access_denial-IsSilent :
    {σ : Type 0} (cfg : Config σ) (r : Request) (reason : Text)
    → IsSilent (log_access_denial cfg r reason)
unfolding log_access_denial
log_access_denial-IsSilent cfg r reason =
    IsSilent-bind _ (log-IsSilent cfg.logger _) _ (log-IsSilent cfg.audit_logger _)

module _ (core : Core) where
  fallback-IsTail :
      {σ : Type 0} (status : ℕ) (e : Option WriteError) → IsTail (fallback core {σ = σ} status e)
  fallback-IsTail status none = ret-IsTail
  fallback-IsTail status (some e) = send-IsTail (status_text status)

  pub write_error-Answers :
      {σ : Type 0} (err : core.AppError) (status : ℕ)
      → core.status err ≡ status
      → 200 ≤ status
      → status ≤ 999
      → Answers {σ = σ} status (write_error core err)
  unfolding write_error
  write_error-Answers err status e low high = rw e (
      Answers-json status (core.response_json err) (fallback core status) low high
        (fallback-IsTail status))

  module _ {σ : Type 0} where
    pub deny-Answers :
        (cfg : Config σ) (r : Request) (reason message : Text)
        → Answers 403 (deny core cfg r reason message)
    deny-Answers cfg r reason message =
        Answers-after_silent (log_access_denial cfg r reason)
          (log_access_denial-IsSilent cfg r reason) 403 _
          (write_error-Answers (core.forbidden message) 403 (core.status-forbidden message)
            (omega arith) (omega arith))

    pub unauthenticated-Answers : Answers {σ = σ} 401 (unauthenticated core)
    unauthenticated-Answers =
        write_error-Answers (core.invalid_credentials (codes "authentication required")) 401
          (core.status-invalid_credentials (codes "authentication required")) (omega arith)
          (omega arith)
