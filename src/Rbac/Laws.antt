-- ===== src/Rbac/Laws.antt =====
-- What the guards decide, and how they refuse.
pub mod Final
pub mod Decisions
use txova_go_middleware.Base.{
  ℕ, ◌≡◌, ◌≢◌, ◌≤◌, true, false, Option, none, some, List, [], arith, Any, All, Holds, Text,
  Text_eq, text_eq_iff, codes, contains, contains_iff, inl, inr, ◌⊎◌, sym, contains_complete,
  text_eq_refl, text_ne,
}
use txova_go_middleware.Context.{Claims, claims_from_context}
use txova_go_middleware.Errors.{Core}
use txova_go_middleware.Errors.Reply.{status_text}
use txova_go_middleware.Http.Program.{Request, WriteError, Handler, Middleware}
use txova_go_middleware.Http.Refusal.{
  Answers, Refuses, IsSilent, log-IsSilent, IsSilent-bind, Answers-after_silent, Refuses-of_eq,
}
use txova_go_middleware.Http.JsonReply.{IsTail, ret-IsTail, send-IsTail, Answers-json}
use txova_go_middleware.Http.Logging.{apply_options}
use txova_go_middleware.Auth.Claims.Laws.{
  has_any_role_iff, has_any_role_cases, has_all_permissions_iff,
}
use txova_go_middleware.Rbac.{
  Config, empty_config, is_owner, Options, log_access_denial, write_error, fallback,
  unauthenticated, deny, require_role, require_permission, require_user_type, require_owner,
  require_role_or_owner,
}
use txova_go_middleware.Rbac.Answers.{
  contains-eq-false, is_owner_of_eq, not-is_owner, deny-Answers, unauthenticated-Answers,
  write_error-Answers,
}

module _ (core : Core) where
  module _ {σ : Type 0} where
    module _ (opts : Options σ) (r : Request) where
      -- A request without claims in its context is refused with 401 by every guard, whatever the
      -- guard requires, and the next handler is not called.
      pub guards_need_claims :
          (url_param : Request → Text → Text) (x : Option Claims) (required : List Text)
          (param : Text)
          → claims_from_context (some r.context) ≡ (x, false)
          → Refuses 401 (require_role core required opts) r
            × Refuses 401 (require_permission core required opts) r
            × Refuses 401 (require_user_type core required opts) r
            × Refuses 401 (require_owner core url_param param opts) r
            × Refuses 401 (require_role_or_owner core url_param param required opts) r
      unfolding require_role require_permission require_user_type require_owner
          require_role_or_owner
      guards_need_claims url_param x required param e =
          let refused =
            λ (guard : Middleware σ) (q : (next : Handler σ) → guard next r ≡ unauthenticated core).
              Refuses-of_eq 401 guard r (unauthenticated core) q (unauthenticated-Answers core) in
          (
            refused _ (λ next. rw e),
            refused _ (λ next. rw e),
            refused _ (λ next. rw e),
            refused _ (λ next. rw e),
            refused _ (λ next. rw e),
          )

      denied :
          (guard : Middleware σ) (reason message : Text)
          → ((next : Handler σ)
              → guard next r ≡ deny core (apply_options opts empty_config) r reason message)
          → Refuses 403 guard r
      denied guard reason message q =
          Refuses-of_eq 403 guard r _ q
            (deny-Answers core (apply_options opts empty_config) r reason message)

      module _ (c : Claims) (present : claims_from_context (some r.context) ≡ (some c, true)) where
        -- A request with claims in its context passes `RequireRole` to the next handler, unchanged,
        -- if one of the required roles is among its own, and is refused with 403 if none is.
        pub require_role_branches :
            (roles : List Text)
            → (Any (Holds c.roles) roles
                → (next : Handler σ) → require_role core roles opts next r ≡ next r)
              × (¬ Any (Holds c.roles) roles → Refuses 403 (require_role core roles opts) r)
        unfolding require_role
        require_role_branches roles = (
          λ held next. rw (present, (has_any_role_iff c roles).0.1 held),
          λ lacking.
              denied (require_role core roles opts) (codes "missing required role")
                (codes "insufficient permissions")
                λ next. rw (present, (has_any_role_iff c roles).1.1 lacking),
        )

        -- A request with claims in its context passes `RequirePermission` to the next handler,
        -- unchanged, if all the required permissions are among its own, and is refused with 403 if
        -- one is missing.
        pub require_permission_branches :
            (permissions : List Text)
            → (All (Holds c.permissions) permissions
                → (next : Handler σ) → require_permission core permissions opts next r ≡ next r)
              × (¬ All (Holds c.permissions) permissions
                  → Refuses 403 (require_permission core permissions opts) r)
        unfolding require_permission
        require_permission_branches permissions = (
          λ held next. rw (present, (has_all_permissions_iff c permissions).0.1 held),
          λ lacking.
              denied (require_permission core permissions opts)
                (codes "missing required permission") (codes "insufficient permissions")
                λ next. rw (present, (has_all_permissions_iff c permissions).1.1 lacking),
        )

        -- A request with claims in its context passes `RequireUserType` to the next handler,
        -- unchanged, if its user type is one of those listed, and is refused with 403 if it is not.
        pub require_user_type_branches :
            (types : List Text)
            → (Holds types c.user_type
                → (next : Handler σ) → require_user_type core types opts next r ≡ next r)
              × (¬ Holds types c.user_type → Refuses 403 (require_user_type core types opts) r)
        unfolding require_user_type
        require_user_type_branches types = (
          λ held next. rw (present, contains_complete types c.user_type held),
          λ lacking.
              denied (require_user_type core types opts) (codes "invalid user type")
                (codes "access denied for user type")
                λ next. rw (present, contains-eq-false types c.user_type lacking),
        )

        -- On a request with claims in its context, `RequireOwner` refuses with 400 one whose URL
        -- has no such parameter, passes on, unchanged, one whose user is the owner that the
        -- parameter names, and refuses every other with 403.
        pub require_owner_branches :
            (url_param : Request → Text → Text) (param : Text)
            → (url_param r param ≡ [] → Refuses 400 (require_owner core url_param param opts) r)
              × (url_param r param ≢ []
                  → url_param r param ≡ c.user_id
                  → (next : Handler σ) → require_owner core url_param param opts next r ≡ next r)
              × (url_param r param ≢ []
                  → url_param r param ≢ c.user_id
                  → Refuses 403 (require_owner core url_param param opts) r)
        unfolding require_owner
        require_owner_branches url_param param =
            let owner = url_param r param in
            (
              λ missing.
                  Refuses-of_eq 400 (require_owner core url_param param opts) r
                    (write_error core
                      (core.validation_error (codes "resource owner ID not found in URL")))
                    (λ next. rw (present, missing, text_eq_refl []))
                    (write_error-Answers core _ 400 (core.status-validation_error _) (omega arith)
                      (omega arith)),
              λ given same next. rw (present, text_ne owner [] given, ← same, text_eq_refl owner),
              λ given other.
                  denied (require_owner core url_param param opts) (codes "not resource owner")
                    (codes "access denied: not resource owner")
                    λ next. rw (
                      present,
                      text_ne owner [] given,
                      text_ne c.user_id owner (λ e. other (sym e)),
                    ),
            )

        -- On a request with claims in its context, `RequireRoleOrOwner` passes on, unchanged, one
        -- that has one of the roles, or whose user is the owner that a parameter of the URL names,
        -- and refuses every other with 403: also one whose URL has no such parameter.
        pub require_role_or_owner_branches :
            (url_param : Request → Text → Text) (param : Text) (roles : List Text)
            → (Any (Holds c.roles) roles
                  ⊎ ((url_param r param ≢ []) × (url_param r param ≡ c.user_id))
                → (next : Handler σ)
                → require_role_or_owner core url_param param roles opts next r ≡ next r)
              × (¬ Any (Holds c.roles) roles
                  → (url_param r param ≡ []) ⊎ (url_param r param ≢ c.user_id)
                  → Refuses 403 (require_role_or_owner core url_param param roles opts) r)
        unfolding require_role_or_owner
        require_role_or_owner_branches url_param param roles =
            let owner = url_param r param in
            (
              λ allowed next. elim (has_any_role_cases c roles) [
                | inl held ↦ rw (present, held)
                | inr lacking ↦ elim allowed [
                  | inl any ↦ absurd ((has_any_role_iff c roles).1.0 lacking any)
                  | inr (given, same) ↦ rw (present, lacking, is_owner_of_eq c owner given same)
                ]
              ],
              λ lacking other.
                  denied (require_role_or_owner core url_param param roles opts)
                    (codes "neither role nor owner") (codes "access denied")
                    λ next.
                      rw (
                        present,
                        (has_any_role_iff c roles).1.1 lacking,
                        not-is_owner c owner other,
                      ),
            )
