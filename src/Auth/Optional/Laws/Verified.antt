-- ===== src/Auth/Optional/Laws/Verified.antt =====
-- Optional authentication with the validator of JWTs.
use txova_go_middleware.Base.{◌≡◌, ◌⊎◌, inl, inr, refl, ◌∙◌, Option, some, Text, Text_eq, ok, err}
use txova_go_middleware.Context.{Claims, Context, with_claims}
use txova_go_middleware.Context.Laws.{view}
use txova_go_middleware.Errors.{Core}
use txova_go_middleware.Http.Program.{Request, Handler, with_context}
use txova_go_middleware.Http.Refusal.{Passes}
use txova_go_middleware.Auth.Bearer.{extract_bearer_token}
use txova_go_middleware.Auth.Guard.{TokenValidator, serve_claims}
use txova_go_middleware.Auth.Guard.Inputs.{with_claims_view, claims_context, view-claims_context}
use txova_go_middleware.Auth.Guard.Verified.{validate_token, Bears, bearer_cases}
use txova_go_middleware.Auth.Validator.{Validator, Jwt, validate}
use txova_go_middleware.Auth.Optional.{serve_token, serve_result, attempt}
use txova_go_middleware.Auth.Optional.Laws.{attempt_follows}

module _ (core : Core) (jwt : Jwt) (v : Validator) {σ : Type 0} (r : Request) where
  abbrev validator : Option (TokenValidator core σ)
  validator = some (validate_token core jwt v)

  accepted :
      (token : Text) (c : Claims) (next : Handler σ)
      → extract_bearer_token core r ≡ ok token
      → validate core jwt v token ≡ ok c
      → attempt core validator next r ≡ next (with_context r (claims_context r.context c))
  unfolding serve_token serve_result serve_claims validate_token claims_context with_claims
  accepted token c next found good = attempt_follows core validator next r ∙ rw (found, good) refl

  rejected :
      (token : Text) (a : core.AppError) (next : Handler σ)
      → extract_bearer_token core r ≡ ok token
      → validate core jwt v token ≡ err a
      → attempt core validator next r ≡ next r
  unfolding serve_token serve_result validate_token
  rejected token a next found bad = attempt_follows core validator next r ∙ rw (found, bad) refl

  -- Optional authentication with the validator of JWTs: either the Authorization header of the
  -- request holds a token that is genuine for some claims, and the next handler gets it in a context
  -- where the readers find these claims; or it holds no such token, and the next handler gets the
  -- request as it came.
  pub attempt_verifies :
      ((c : Claims) × Bears core jwt v r c
        × (ctx : Context) × (view (some ctx) ≡ with_claims_view c (view (some r.context)))
        × ((next : Handler σ) → attempt core validator next r ≡ next (with_context r ctx)))
      ⊎ ((¬ ((c : Claims) × Bears core jwt v r c)) × Passes (attempt core validator) r)
  attempt_verifies = elim (bearer_cases core jwt v r) [
    | inl (token, c, found, good, genuine) ↦ inl (
      c,
      (token, found, genuine),
      claims_context r.context c,
      view-claims_context r.context c,
      λ next. accepted token c next found good,
    )
    | inr (stranger, inl (e, none_found)) ↦
        inr (stranger, λ next. attempt_follows core validator next r ∙ rw none_found refl)
    | inr (stranger, inr (token, a, found, bad, report)) ↦
        inr (stranger, λ next. rejected token a next found bad)
  ]
