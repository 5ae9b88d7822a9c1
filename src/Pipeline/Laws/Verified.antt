-- ===== src/Pipeline/Laws/Verified.antt =====
-- A route behind authentication with the validator of JWTs, and a guard for a role.
use txova_go_middleware.Base.{
  ◌≡◌, ◌⊎◌, inl, inr, ap, ◌∙◌, sym, true, some, List, Any, Holds, Text, Text_eq, ℕ,
}
use txova_go_middleware.Context.{Claims, Context, claims_from_context}
use txova_go_middleware.Context.Laws.{View, view}
use txova_go_middleware.Errors.{Core}
use txova_go_middleware.Http.Program.{Request, Handler, Middleware, with_context}
use txova_go_middleware.Http.Refusal.{Refuses}
use txova_go_middleware.Auth.Guard.{Pattern, Config, handle}
use txova_go_middleware.Auth.Guard.Inputs.{with_claims_view}
use txova_go_middleware.Auth.Guard.Verified.{validate_token, Bears, handle_verifies}
use txova_go_middleware.Auth.Validator.{Validator, Jwt}
use txova_go_middleware.Rbac.{Options, require_role}
use txova_go_middleware.Rbac.Laws.Decisions.{require_role_decides}
use txova_go_middleware.Pipeline.{role_route}
use txova_go_middleware.Pipeline.Laws.{role_route_nested}

-- A guard that refuses also does so behind a middleware that hands the request on to it.
Refuses-behind :
    {σ : Type 0} (status : ℕ) (outer guard both : Middleware σ) (r r' : Request)
    → ((next : Handler σ) → both next r ≡ outer (guard next) r)
    → ((next : Handler σ) → outer next r ≡ next r')
    → Refuses status guard r'
    → Refuses status both r
Refuses-behind status outer guard both r r' nested hands_on refuses =
    let same : (next : Handler _) → both next r ≡ guard next r' =
      λ next. nested next ∙ hands_on (guard next) in
    record {
      ignores_next = λ next other. same next ∙ refuses.ignores_next next other ∙ sym (same other);
      answers = λ next. rw (same next) (refuses.answers next);
    }

-- A middleware that refuses does so whatever stands behind it.
Refuses-before :
    {σ : Type 0} (status : ℕ) (outer guard both : Middleware σ) (r : Request)
    → ((next : Handler σ) → both next r ≡ outer (guard next) r)
    → Refuses status outer r
    → Refuses status both r
Refuses-before status outer guard both r nested refuses = record {
  ignores_next = λ next other.
      nested next ∙ refuses.ignores_next (guard next) (guard other) ∙ sym (nested other);
  answers = λ next. rw (nested next) (refuses.answers (guard next));
}

module _ (core : Core) (jwt : Jwt) (v : Validator) {σ : Type 0} (cfg : Config core σ)
    (patterns : List Pattern) (roles : List Text) (opts : Options σ) (r : Request)
    (guarded : ¬ (Holds cfg.exclude_paths r.path ⊎ Any (λ re. re r.path ≡ true) patterns)) where
  -- On a route behind authentication with the validator of JWTs, and a guard for a role, a request
  -- that the authentication does not exclude: either it bears a genuine token whose claims have one
  -- of the roles, and the handler gets it in a context where the readers find these claims; or it
  -- bears a genuine token whose claims have none, and it is refused with 403; or it bears no
  -- genuine token, and it is refused with 401.
  pub route_verifies :
      let route = role_route core cfg (validate_token core jwt v) patterns roles opts in
      ((c : Claims) × Bears core jwt v r c
        × Any (Holds c.roles) roles
        × (ctx : Context) × (view (some ctx) ≡ with_claims_view c (view (some r.context)))
        × ((next : Handler σ) → route next r ≡ next (with_context r ctx)))
      ⊎ ((c : Claims) × Bears core jwt v r c × (¬ Any (Holds c.roles) roles) × Refuses 403 route r)
      ⊎ ((¬ ((c : Claims) × Bears core jwt v r c)) × Refuses 401 route r)
  route_verifies =
      let validate = validate_token core jwt v {σ = σ} in
      let outer = handle core cfg validate patterns in
      let guard = require_role core roles opts in
      let route = role_route core cfg validate patterns roles opts in
      let nested : (next : Handler σ) → route next r ≡ outer (guard next) r = λ next.
        ap (λ (h : Handler σ). h r)
          (role_route_nested core cfg validate patterns roles opts next r) in
      elim (handle_verifies core jwt v cfg patterns r guarded) [
        | inr (stranger, refuses) ↦
            inr (inr (stranger, Refuses-before 401 outer guard route r nested refuses))
        | inl (c, bears, ctx, seen, hands_on) ↦
            let present : claims_from_context (some ctx) ≡ (some c, true) =
              unfold view in ap (λ (x : View). x.claims) seen in
            elim (require_role_decides core opts (with_context r ctx) c present roles) [
              | inl (held, passes) ↦ inl (
                c,
                bears,
                held,
                ctx,
                seen,
                λ next. nested next ∙ hands_on (guard next) ∙ passes next,
              )
              | inr (lacking, refuses) ↦ inr (
                  inl (
                    c,
                    bears,
                    lacking,
                    Refuses-behind 403 outer guard route r (with_context r ctx) nested hands_on
                        refuses,
                  ))
            ]
      ]
