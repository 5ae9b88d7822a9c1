-- ===== src/Auth/Guard/Verified.antt =====
-- auth/validator.go: `ValidateToken`, with which a `Validator` is the token validator of the
-- middleware in auth/middleware.go; and the two together.
use txova_go_middleware.Base.{
  ◌≡◌, ◌≢◌, ◌⊎◌, inl, inr, refl, sym, ap, ◌∙◌, true, some, List, [], Any, Holds, Text, Text_eq,
  text_eq, Option, Result, ok, err, Result-cases, arith,
}
use txova_go_middleware.Context.{Claims, Context, with_claims}
use txova_go_middleware.Context.Laws.{view}
use txova_go_middleware.Errors.{Core, Error, app, http_status}
use txova_go_middleware.Http.Program.{Request, ret, Handler, with_context}
use txova_go_middleware.Http.Refusal.{Refuses, Refuses-of_eq}
use txova_go_middleware.Auth.Bearer.{extract_bearer_token}
use txova_go_middleware.Auth.Guard.{
  Pattern, TokenValidator, Config, error_status, fail, serve_claims, serve_result, serve_token,
  handle,
}
use txova_go_middleware.Auth.Guard.Laws.{not_excluded, fail-Answers, handle-Refuses_no_token}
use txova_go_middleware.Auth.Guard.Inputs.{with_claims_view, claims_context, view-claims_context}
use txova_go_middleware.Auth.Validator.{Validator, Jwt, parser_options, validate}
use txova_go_middleware.Auth.Validator.Laws.{MatchesAudience, validate_iff}
use txova_go_middleware.Auth.Validator.Laws.Decisions.{IsReport, validate-Outcome}

err-ne-ok : {E A : Type 0} {a : A} {e : E} → ◌≢◌ {A = Result E A} (err e) (ok a)
err-ne-ok h = cc

ok_inj : {E A : Type 0} {a b : A} → ◌≡◌ {A = Result E A} (ok a) (ok b) → a ≡ b
ok_inj h = cc

module _ (core : Core) (jwt : Jwt) (v : Validator) where
  -- Claims and error of `Validate`, as the middleware's interface has them.
  as_verdict : Result core.AppError Claims → Result (Error core.AppError) (Option Claims)
  as_verdict (ok c) = ok (some c)
  as_verdict (err e) = err (app e)

  -- `ValidateToken`
  unfoldable pub validate_token : {σ : Type 0} → TokenValidator core σ
  unfolding as_verdict
  validate_token ctx token = ret (as_verdict (validate core jwt v token))

  -- The token is one that package jwt finds valid, with these claims, under the validator's key,
  -- issuer and methods, and that names an audience of the validator, if this has any.
  abbrev pub IsGenuine : Text → Claims → Type 0
  IsGenuine token c =
      (token ≢ [])
      × (jwt.parse_with_claims (parser_options v) v.public_key token ≡ ok (c, true))
      × ((v.audience ≡ []) ⊎ MatchesAudience (jwt.get_audience c.registered) v.audience)

  -- The request's Authorization header holds a genuine token with these claims.
  abbrev pub Bears : Request → Claims → Type 0
  Bears r c = (token : Text) × (extract_bearer_token core r ≡ ok token) × IsGenuine token c

  -- A request bears a genuine token, which `Validate` accepts; or it bears none, and no token is
  -- found, or `Validate` reports it.
  pub bearer_cases :
      (r : Request)
      → ((token : Text) × (c : Claims) × (extract_bearer_token core r ≡ ok token)
          × (validate core jwt v token ≡ ok c)
          × IsGenuine token c)
        ⊎ ((¬ ((c : Claims) × Bears r c))
            × (((e : core.AppError) × (extract_bearer_token core r ≡ err e))
                ⊎ ((token : Text) × (a : core.AppError) × (extract_bearer_token core r ≡ ok token)
                    × (validate core jwt v token ≡ err a)
                    × IsReport core a)))
  bearer_cases r = elim (Result-cases (extract_bearer_token core r)) [
    | inr (e, none_found) ↦
        inr
          (λ (c, (token, found, genuine)). err-ne-ok (sym none_found ∙ found), inl (e, none_found))
    | inl (token, found) ↦ elim (validate-Outcome core jwt v token) [
      | inl (c, good) ↦ inl (token, c, found, good, (validate_iff core jwt v token c).0 good)
      | inr (a, bad, report) ↦ inr (
        λ (c, (other, found', genuine)). err-ne-ok (
            sym bad
            ∙ ap (validate core jwt v) (ok_inj (sym found ∙ found'))
            ∙ (validate_iff core jwt v other c).1 genuine),
        inr (token, a, found, bad, report),
      )
    ]
  ]

report_status : (core : Core) (a : core.AppError) → IsReport core a → error_status core a ≡ 401
unfolding http_status text_eq
report_status core a (status, inl expired) = rw expired status
report_status core a (status, inr invalid) = rw invalid status

module _ (core : Core) (jwt : Jwt) (v : Validator) {σ : Type 0} (cfg : Config core σ)
    (patterns : List Pattern) (r : Request)
    (guarded : ¬ (Holds cfg.exclude_paths r.path ⊎ Any (λ re. re r.path ≡ true) patterns)) where
  -- A request whose token the validator reports.
  reported :
      (token : Text) (a : core.AppError)
      → extract_bearer_token core r ≡ ok token
      → validate core jwt v token ≡ err a
      → IsReport core a
      → Refuses 401 (handle core cfg (validate_token core jwt v) patterns) r
  unfolding handle serve_token serve_result validate_token
  reported token a found bad report =
      Refuses-of_eq 401 (handle core cfg (validate_token core jwt v) patterns) r
        (fail core cfg r (core.error_text (app a)) (app a))
        (λ next.
          rw (not_excluded core cfg (validate_token core jwt v) patterns r guarded, found, bad)
            refl)
        (fail-Answers core cfg (validate_token core jwt v) patterns r _ (app a) 401
          (rw core.from_error-app (report_status core a report)) (omega arith) (omega arith))

  served :
      (token : Text) (c : Claims) (next : Handler σ)
      → extract_bearer_token core r ≡ ok token
      → validate core jwt v token ≡ ok c
      → handle core cfg (validate_token core jwt v) patterns next r
        ≡ next (with_context r (claims_context r.context c))
  unfolding handle serve_token serve_result serve_claims validate_token claims_context with_claims
  served token c next found good =
      rw (not_excluded core cfg (validate_token core jwt v) patterns r guarded, found, good) refl

  -- With the validator of JWTs, a request that the middleware does not exclude: either its
  -- Authorization header holds a token that is genuine for some claims, and the next handler gets
  -- it in a context where the readers find these claims; or it holds no such token, and it is
  -- refused with 401.
  pub handle_verifies :
      let verified = handle core cfg (validate_token core jwt v) patterns in
      ((c : Claims) × Bears core jwt v r c
        × (ctx : Context) × (view (some ctx) ≡ with_claims_view c (view (some r.context)))
        × ((next : Handler σ) → verified next r ≡ next (with_context r ctx)))
      ⊎ ((¬ ((c : Claims) × Bears core jwt v r c)) × Refuses 401 verified r)
  handle_verifies = elim (bearer_cases core jwt v r) [
    | inl (token, c, found, good, genuine) ↦ inl (
      c,
      (token, found, genuine),
      claims_context r.context c,
      view-claims_context r.context c,
      λ next. served token c next found good,
    )
    | inr (stranger, inl (e, none_found)) ↦ inr (
      stranger,
      handle-Refuses_no_token core cfg (validate_token core jwt v) patterns r guarded e none_found,
    )
    | inr (stranger, inr (token, a, found, bad, report)) ↦
        inr (stranger, reported token a found bad report)
  ]
