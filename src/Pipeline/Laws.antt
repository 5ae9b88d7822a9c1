-- ===== src/Pipeline/Laws.antt =====
-- Whom a route behind authentication and a guard for a role serves.
pub mod Verified
use txova_go_middleware.Base.{
  ◌≡◌, ◌⊎◌, inl, inr, ap, ◌∙◌, true, Text_eq, none, some, List, [], ◌∷◌, Any, Holds, Text, ok,
}
use txova_go_middleware.Context.{Claims, Context, claims_from_context}
use txova_go_middleware.Context.Laws.{View, view}
use txova_go_middleware.Errors.{Core}
use txova_go_middleware.Http.Program.{Request, Handler, with_context}
use txova_go_middleware.Http.Server.{Response, Connection, returned, run}
use txova_go_middleware.Http.Refusal.{Answered}
use txova_go_middleware.Chain.Laws.{chain-cons, chain-nil}
use txova_go_middleware.Auth.Bearer.{extract_bearer_token}
use txova_go_middleware.Auth.Guard.{Pattern, TokenValidator, Config, handle}
use txova_go_middleware.Auth.Guard.Laws.{handle_valid_token}
use txova_go_middleware.Auth.Guard.Inputs.{with_claims_view}
use txova_go_middleware.Auth.Claims.Laws.{has_any_role_iff, has_any_role_cases}
use txova_go_middleware.Rbac.{Options, require_role}
use txova_go_middleware.Rbac.Laws.{require_role_branches}
use txova_go_middleware.Pipeline.{role_route}

module _ (core : Core) {σ : Type 0} (cfg : Config core σ) (validate : TokenValidator core σ)
    (patterns : List Pattern) (roles : List Text) (opts : Options σ) (next : Handler σ)
    (r : Request) where
  pub role_route_nested :
      role_route core cfg validate patterns roles opts next
      ≡ handle core cfg validate patterns (require_role core roles opts next)
  unfolding role_route
  role_route_nested =
      chain-cons (handle core cfg validate patterns) (require_role core roles opts ∷ []) next
      ∙ ap (handle core cfg validate patterns) (
          chain-cons (require_role core roles opts) [] next
          ∙ ap (require_role core roles opts) (chain-nil next))

  module _ (guarded : ¬ (Holds cfg.exclude_paths r.path ⊎ Any (λ re. re r.path ≡ true) patterns))
      (token : Text) (found : extract_bearer_token core r ≡ ok token) (conn : Connection) (s s' : σ)
      (w w' : Response) (c : Claims)
      (ran : run conn (validate r.context token) s w
        ≡ record { end = returned (ok (some c)); state = s'; response = w' }) where
    -- What the guard for the role makes of the request that the authentication hands on.
    pub role_route_branches :
        (Any (Holds c.roles) roles
          → (ctx : Context) × (view (some ctx) ≡ with_claims_view c (view (some r.context)))
            × (run conn (role_route core cfg validate patterns roles opts next r) s w
                ≡ run conn (next (with_context r ctx)) s' w'))
        × (¬ Any (Holds c.roles) roles
            → w'.status ≡ none
            → Answered 403 (run conn (role_route core cfg validate patterns roles opts next r) s w))
    role_route_branches =
        let (ctx, seen, runs) =
          handle_valid_token core cfg validate patterns r guarded token found conn s s' w w' c
            (require_role core roles opts next) ran in
        let present : claims_from_context (some ctx) ≡ (some c, true) =
          unfold view in ap (λ (v : View). v.claims) seen in
        let (passes, refuses) =
          require_role_branches core opts (with_context r ctx) c present roles in
        (
          λ held. (
            ctx,
            seen,
            rw role_route_nested (runs ∙ ap (λ m. run conn m s' w') (passes held next)),
          ),
          λ lacking fresh.
              rw (role_route_nested, runs)
                (((refuses lacking).answers next).answer conn s' w' fresh),
        )

    -- On a route behind authentication and a guard for a role, a request that the authentication
    -- does not exclude, with a bearer token that the validator accepts without sending anything:
    -- either its claims have one of the roles, and it reaches the handler, in a context where the
    -- readers find the claims; or they have none, and it is answered with 403.
    role_route_decides :
        w'.status ≡ none
        → (Any (Holds c.roles) roles
            × (ctx : Context) × (view (some ctx) ≡ with_claims_view c (view (some r.context)))
            × (run conn (role_route core cfg validate patterns roles opts next r) s w
                ≡ run conn (next (with_context r ctx)) s' w'))
          ⊎ ((¬ Any (Holds c.roles) roles)
              × Answered 403
                  (run conn (role_route core cfg validate patterns roles opts next r) s w))
    role_route_decides unsent = elim (has_any_role_cases c roles) [
      | inl e ↦
          let held = (has_any_role_iff c roles).0.0 e in
          let (ctx, seen, runs) = role_route_branches.0 held in inl (held, ctx, seen, runs)
      | inr e ↦
          let lacking = (has_any_role_iff c roles).1.0 e in
          inr (lacking, role_route_branches.1 lacking unsent)
    ]
