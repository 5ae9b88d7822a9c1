-- ===== src/Pipeline/Service/Laws/Denials.antt =====
-- A service whose route is behind authentication and a guard for a role: who is denied, and what the
-- log shows.
use txova_go_middleware.Base.{
  ℕ, ◌≡◌, ◌≢◌, ◌⊎◌, true, Option, none, some, List, [], Any, Holds, Text, Text_eq, ok, err,
}
use txova_go_middleware.Base.Int.{ℤ, ◌-ℤ◌}
use txova_go_middleware.Context.{Claims, Context}
use txova_go_middleware.Errors.{Core}
use txova_go_middleware.Http.Program.{Request, Handler}
use txova_go_middleware.Http.Server.{Response, Connection, returned, run}
use txova_go_middleware.Http.Final.{SendsFinal}
use txova_go_middleware.Http.Logging.{Entry, Logger}
use txova_go_middleware.Http.Refusal.{Answered}
use txova_go_middleware.Auth.Bearer.{extract_bearer_token}
use txova_go_middleware.Auth.Guard.{Pattern, TokenValidator, Config}
use txova_go_middleware.Auth.Guard.Final.{HasFinalStatuses, handle-SendsFinal}
use txova_go_middleware.Auth.Guard.Laws.{handle-Refuses_no_token}
use txova_go_middleware.Rbac.{Options, require_role}
use txova_go_middleware.Rbac.Laws.Final.{require_role-SendsFinal}
use txova_go_middleware.RequestId
use txova_go_middleware.RequestId.{Generator}
use txova_go_middleware.Recovery
use txova_go_middleware.RequestLog
use txova_go_middleware.RequestLog.Sizes.{taken}
use txova_go_middleware.RequestLog.Entries.{Describes}
use txova_go_middleware.Pipeline.{role_route}
use txova_go_middleware.Pipeline.Laws.{role_route_nested, role_route_branches}
use txova_go_middleware.Pipeline.Service.Laws.Refusals.{
  handled_service, id_of_request, handled_request, handled_response, refusal_logged,
}

module _ (core : Core) {σ : Type 0} (cfg : Config core σ) (validate : TokenValidator core σ)
    (patterns : List Pattern) (roles : List Text) (opts : Options σ) (next : Handler σ)
    (finals : HasFinalStatuses core)
    (validates : (ctx : Context) (token : Text) → SendsFinal (validate ctx token))
    (final : (r : Request) → SendsFinal (next r)) where
  role_route-SendsFinal :
      (r : Request) → SendsFinal (role_route core cfg validate patterns roles opts next r)
  role_route-SendsFinal r = rw (role_route_nested core cfg validate patterns roles opts next r) (
      handle-SendsFinal core finals cfg validate patterns validates
        (require_role core roles opts next)
        (λ r'. require_role-SendsFinal core opts next r' (final r') roles) r)

  module _ (stack_trace : ℕ → Text) (to_lower : Text → Text) (now : σ → ℤ) (generator : Generator σ)
      (id_opts : List (RequestId.Config σ → RequestId.Config σ)) (panic_logger : Option (Logger σ))
      (panic_opts : List (Recovery.Config → Recovery.Config)) (logger : Logger σ)
      (log_opts : List (RequestLog.Config → RequestLog.Config)) (r : Request) (conn : Connection)
      (s : σ) (w : Response) where
    abbrev pub at_route : Request
    at_route =
        handled_request core stack_trace to_lower now generator id_opts panic_logger panic_opts
          logger log_opts (role_route core cfg validate patterns roles opts next) r conn s w

    abbrev pub response_at_route : Response
    response_at_route =
        handled_response core stack_trace to_lower now generator id_opts panic_logger panic_opts
          logger log_opts (role_route core cfg validate patterns roles opts next) r conn s w

    -- The client is answered with the status, and the log has one entry, which says what the request
    -- is, how long it took, how many bytes the connection took, and this status.
    abbrev pub DeniedAndLogged : ℕ → Type 0
    DeniedAndLogged status =
        let handler = role_route core cfg validate patterns roles opts next in
        let handled = run conn (handler at_route) s response_at_route in
        let ran =
          run conn
            (handled_service core stack_trace to_lower now generator id_opts panic_logger panic_opts
              logger log_opts handler r conn s w r)
            s w in
        (e : Entry) × Describes to_lower (RequestLog.configure log_opts) at_route
          (now handled.state -ℤ now s) status (taken conn (handler at_route) s response_at_route 0)
          e
        × (ran.state ≡ logger e handled.state)
        × Answered status ran

    module _ (fresh : w.status ≡ none)
        (given : id_of_request core stack_trace to_lower now generator id_opts panic_logger
            panic_opts logger log_opts
            (role_route core cfg validate patterns roles opts next)
            r
            conn
            s
            w
          ≢ [])
        (shown : ¬ Holds (RequestLog.configure log_opts).exclude_paths at_route.path)
        (guarded : ¬ (
          Holds cfg.exclude_paths at_route.path
          ⊎ Any (λ re. re at_route.path ≡ true) patterns)) where
      logs :
          (status : ℕ)
          → Answered status (
              run conn
                (role_route core cfg validate patterns roles opts next at_route)
                s
                response_at_route)
          → DeniedAndLogged status
      logs status answered =
          refusal_logged core stack_trace to_lower now generator id_opts panic_logger panic_opts
            logger log_opts (role_route core cfg validate patterns roles opts next) r conn s w
            status fresh given (role_route-SendsFinal at_route) shown answered

      -- A service behind request IDs, recovery and logging, whose route is behind authentication and
      -- a guard for a role, where validator and handler send final statuses only and every error of
      -- txova-go-core has one: a request with an ID, to a logged path that the authentication does not
      -- exclude, from which `extractBearerToken` takes no token, on a response that has sent nothing,
      -- is answered with the JSON error 401, and the log has one entry for it, with this status.
      no_token_logged :
          (e : core.AppError) → extract_bearer_token core at_route ≡ err e → DeniedAndLogged 401
      no_token_logged e missing = logs 401 (
          rw (role_route_nested core cfg validate patterns roles opts next at_route) (
            ((handle-Refuses_no_token core cfg validate patterns at_route guarded e missing).answers
                (require_role core roles opts next)).answer
              conn s response_at_route fresh))

      -- A service behind request IDs, recovery and logging, whose route is behind authentication and
      -- a guard for a role, where validator and handler send final statuses only and every error of
      -- txova-go-core has one: a request with an ID, to a logged path that the authentication does not
      -- exclude, with a bearer token that the validator accepts without sending anything, and whose
      -- claims have none of the roles, on a response that has sent nothing, is answered with the JSON
      -- error 403, and the log has one entry for it, which says, field by field, what the request is,
      -- how long it took, how many bytes the connection took, and this status.
      pub no_role_logged :
          (token : Text)
          → extract_bearer_token core at_route ≡ ok token
          → (s' : σ) (w' : Response) (c : Claims)
          → run conn (validate at_route.context token) s response_at_route
            ≡ record { end = returned (ok (some c)); state = s'; response = w' }
          → w'.status ≡ none
          → ¬ Any (Holds c.roles) roles
          → DeniedAndLogged 403
      no_role_logged token found s' w' c ran unsent lacking = logs 403 (
          (role_route_branches core cfg validate patterns roles opts next at_route guarded token
              found conn s s' response_at_route w' c ran).1
            lacking unsent)
