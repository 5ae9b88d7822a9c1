-- ===== src/Auth/Guard/Laws.antt =====
-- Which requests reach the handler behind the authentication, and what they carry.
use txova_go_middleware.Base.{
  ℕ, ◌≡◌, ◌≤◌, refl, true, false, Option, none, some, List, arith, Any, Holds, Text, Text_eq,
  text_eq, codes, Bool-cases, inl, inr, ◌⊎◌, sym, ◌∙◌, ok, err,
}
use txova_go_middleware.Context.{Claims, Context, with_claims}
use txova_go_middleware.Context.Laws.{view}
use txova_go_middleware.Errors.{Core, Error, app, http_status, token_required}
use txova_go_middleware.Errors.Reply.{status_text}
use txova_go_middleware.Http.Headers.{canonical}
use txova_go_middleware.Http.Program.{Request, WriteError, nil_dereference, Handler, with_context}
use txova_go_middleware.Http.Server.{Response, Connection, returned, panicked, run, resume}
use txova_go_middleware.Http.Refusal.{
  Answered, Answers, Refuses, IsSilent, log-IsSilent, IsSilent-bind, Answers-after_silent,
  Refuses-of_eq, run-bind_of_eq,
}
use txova_go_middleware.Http.JsonReply.{IsTail, ret-IsTail, http_error-IsTail, Answers-json_with}
use txova_go_middleware.Auth.Bearer.{extract_bearer_token}
use txova_go_middleware.Auth.Bearer.Laws.{extract_error_cases}
use txova_go_middleware.Auth.Guard.{
  Pattern, should_exclude, serve_claims, log_auth_failure, Config, TokenValidator, fallback,
  error_status, write_error, fail, serve_result, serve_token, handle,
}
use txova_go_middleware.Auth.Guard.Inputs.{
  should_exclude_iff, with_claims_view, claims_context, view-claims_context,
}

log_auth_failure-IsSilent :
    {σ : Type 0} (core : Core) (cfg : Config core σ) (r : Request) (reason : Text)
    → IsSilent (log_auth_failure cfg.logger cfg.audit_logger r reason)
unfolding log_auth_failure
log_auth_failure-IsSilent core cfg r reason =
    IsSilent-bind _ (log-IsSilent cfg.logger _) _ (log-IsSilent cfg.audit_logger _)

required_status : (core : Core) → error_status core (token_required core) ≡ 401
unfolding token_required http_status text_eq
required_status core = rw core.code-new refl

token_invalid_status : (core : Core) (m : Text) → error_status core (core.token_invalid m) ≡ 401
unfolding http_status text_eq
token_invalid_status core m = rw core.code-token_invalid (core.status-token_invalid m)

module _ (core : Core) where
  fallback-IsTail : {σ : Type 0} (e : Option WriteError) → IsTail (fallback core {σ = σ} e)
  fallback-IsTail none = ret-IsTail
  fallback-IsTail (some e) = http_error-IsTail (status_text 401) 401

  pub write_error-Answers :
      {σ : Type 0} (e : Error core.AppError) (status : ℕ)
      → error_status core (core.from_error e) ≡ status
      → 200 ≤ status
      → status ≤ 999
      → Answers {σ = σ} status (write_error core e)
  unfolding write_error canonical text_eq
  write_error-Answers e status same low high = rw same (
      Answers-json_with (codes "WWW-Authenticate") (codes "Bearer") status
        (core.response_json (core.from_error e)) (fallback core) (refl, refl) low high
        fallback-IsTail)

  -- The two errors of `extractBearerToken` are answered with 401.
  extract_error_status :
      (r : Request) (e : core.AppError)
      → extract_bearer_token core r ≡ err e
      → error_status core e ≡ 401
  extract_error_status r e h = elim (extract_error_cases core r e h) [
    | inl missing ↦ rw missing (required_status core)
    | inr (m, invalid) ↦ rw invalid (token_invalid_status core m)
  ]

  module _ {σ : Type 0} (cfg : Config core σ) (validate : TokenValidator core σ)
      (patterns : List Pattern) where
    pub fail-Answers :
        (r : Request) (reason : Text) (e : Error core.AppError) (status : ℕ)
        → error_status core (core.from_error e) ≡ status
        → 200 ≤ status
        → status ≤ 999
        → Answers status (fail core cfg r reason e)
    unfolding fail
    fail-Answers r reason e status same low high =
        Answers-after_silent (log_auth_failure cfg.logger cfg.audit_logger r reason)
          (log_auth_failure-IsSilent core cfg r reason) status (write_error core e)
          (write_error-Answers e status same low high)

    -- What a run of the handler comes to, once the validator returned no error.
    pub handle_ran :
        (r : Request) (next : Handler σ) (token : Text)
        → extract_bearer_token core r ≡ ok token
        → should_exclude r.path cfg.exclude_paths patterns ≡ false
        → (conn : Connection) (s s' : σ) (w w' : Response) (claims : Option Claims)
        → run conn (validate r.context token) s w
          ≡ record { end = returned (ok claims); state = s'; response = w' }
        → run conn (handle core cfg validate patterns next r) s w
          ≡ run conn (serve_claims next r claims) s' w'
    unfolding handle serve_token serve_result resume
    handle_ran r next token found guarded conn s s' w w' claims ran =
        rw (guarded, found) (run-bind_of_eq conn (validate r.context token) _ s w ran)

    -- A request whose path is listed as excluded, or matches an excluded pattern, goes to the next
    -- handler as it came.
    handle_excluded :
        (r : Request) (next : Handler σ)
        → Holds cfg.exclude_paths r.path ⊎ Any (λ re. re r.path ≡ true) patterns
        → handle core cfg validate patterns next r ≡ next r
    unfolding handle
    handle_excluded r next h = rw ((should_exclude_iff r.path cfg.exclude_paths patterns).1 h)

    module _ (r : Request)
        (guarded : ¬ (Holds cfg.exclude_paths r.path ⊎ Any (λ re. re r.path ≡ true) patterns)) where
      pub not_excluded : should_exclude r.path cfg.exclude_paths patterns ≡ false
      not_excluded = elim (Bool-cases (should_exclude r.path cfg.exclude_paths patterns)) [
        | inl t ↦ absurd (guarded ((should_exclude_iff r.path cfg.exclude_paths patterns).0 t))
        | inr f ↦ f
      ]

      -- A request that the middleware does not exclude, and from which `extractBearerToken` takes
      -- no token, is refused with 401 and the headers of a JSON error, and the next handler is not
      -- called.
      pub handle-Refuses_no_token :
          (e : core.AppError)
          → extract_bearer_token core r ≡ err e
          → Refuses 401 (handle core cfg validate patterns) r
      unfolding handle serve_token
      handle-Refuses_no_token e h =
          Refuses-of_eq 401 (handle core cfg validate patterns) r
            (fail core cfg r (codes "missing or invalid authorization header") (app e))
            (λ next. rw (not_excluded, h))
            (fail-Answers r _ (app e) 401 (rw core.from_error-app (extract_error_status r e h))
              (omega arith) (omega arith))

      module _ (token : Text) (found : extract_bearer_token core r ≡ ok token) (conn : Connection)
          (s s' : σ) (w w' : Response) where
        fails :
            (e : Error core.AppError) (next : Handler σ)
            → run conn (validate r.context token) s w
              ≡ record { end = returned (err e); state = s'; response = w' }
            → run conn (handle core cfg validate patterns next r) s w
              ≡ run conn (fail core cfg r (core.error_text e) e) s' w'
        unfolding handle serve_token serve_result run resume
        fails e next ran =
            rw (not_excluded, found) (run-bind_of_eq conn (validate r.context token) _ s w ran)

        -- On a request that the middleware does not exclude, with a bearer token: if the validator
        -- returns an error and has sent nothing, and the error's status is from 200 to 999, the
        -- answer has that status and the headers of a JSON error, and the next handler is not
        -- called: what happens is the same for every one.
        pub handle_invalid_token :
            (e : Error core.AppError) (status : ℕ) (next other : Handler σ)
            → run conn (validate r.context token) s w
              ≡ record { end = returned (err e); state = s'; response = w' }
            → w'.status ≡ none
            → error_status core (core.from_error e) ≡ status
            → 200 ≤ status
            → status ≤ 999
            → Answered status (run conn (handle core cfg validate patterns next r) s w)
              × (run conn (handle core cfg validate patterns next r) s w
                  ≡ run conn (handle core cfg validate patterns other r) s w)
        handle_invalid_token e status next other ran fresh same low high =
            let answers = fail-Answers r (core.error_text e) e status same low high in
            (
              rw (fails e next ran) (answers.answer conn s' w' fresh),
              fails e next ran ∙ sym (fails e other ran),
            )

        -- On a request that the middleware does not exclude, with a bearer token: if the validator
        -- returns claims, the next handler runs from where the validator ended, on the same request
        -- in a context where the readers find the claims, and the user ID, the user type and the
        -- roles of the claims where these are not empty, and else what they found before.
        pub handle_valid_token :
            (c : Claims) (next : Handler σ)
            → run conn (validate r.context token) s w
              ≡ record { end = returned (ok (some c)); state = s'; response = w' }
            → (ctx : Context) × (view (some ctx) ≡ with_claims_view c (view (some r.context)))
              × (run conn (handle core cfg validate patterns next r) s w
                  ≡ run conn (next (with_context r ctx)) s' w')
        unfolding serve_claims claims_context with_claims run
        handle_valid_token c next ran = (
          claims_context r.context c,
          view-claims_context r.context c,
          handle_ran r next token found not_excluded conn s s' w w' (some c) ran,
        )

        -- A validator that returns neither claims nor an error makes the handler panic.
        pub handle_nil_claims :
            (next : Handler σ)
            → run conn (validate r.context token) s w
              ≡ record { end = returned (ok none); state = s'; response = w' }
            → run conn (handle core cfg validate patterns next r) s w
              ≡ record { end = panicked nil_dereference; state = s'; response = w' }
        unfolding serve_claims run
        handle_nil_claims next ran =
            handle_ran r next token found not_excluded conn s s' w w' none ran
