-- ===== src/Auth/Optional/Laws.antt =====
-- What optional authentication does, against `extractBearerToken` and the guard.
pub mod Verified
use txova_go_middleware.Base.{
  ◌≡◌, refl, false, Option, some, List, [], ◌∷◌, Text, Text_eq, text_eq, split_two, equal_fold,
  trim_space, Result, ok, err, Bool-cases, inl, inr, sym, ◌∙◌,
}
use txova_go_middleware.Context.{Claims}
use txova_go_middleware.Errors.{Core, Error}
use txova_go_middleware.Http.Headers.{header_get}
use txova_go_middleware.Http.Program.{Request, Program, Handler}
use txova_go_middleware.Http.Server.{Response, Connection, returned, run, resume}
use txova_go_middleware.Http.Refusal.{run-bind_of_eq}
use txova_go_middleware.Auth.Bearer.{
  authorization, bearer, token_of, token_of_parts, extract_bearer_token,
}
use txova_go_middleware.Auth.Guard.{Pattern, should_exclude, TokenValidator, Config, handle}
use txova_go_middleware.Auth.Guard.Laws.{handle_ran}
use txova_go_middleware.Auth.Optional.{serve_result, serve_token, serve_part, serve_parts, attempt}

module _ (core : Core) {σ : Type 0} (validator : Option (TokenValidator core σ)) (next : Handler σ)
    (r : Request) where
  -- What follows the search for a token.
  abbrev pub follow : Result core.AppError Text → Program σ (Unit {0})
  follow (err e) = next r
  follow (ok token) = serve_token core validator next r token

  follow_part : (part : Text) → serve_part core validator next r part ≡ follow (token_of core part)
  unfolding serve_part token_of
  follow_part part = elim (Bool-cases (text_eq (trim_space part) [])) [
    | inl empty ↦ rw empty refl
    | inr given ↦ rw given refl
  ]

  follow_parts :
      (parts : List Text)
      → serve_parts core validator next r parts ≡ follow (token_of_parts core parts)
  unfolding serve_parts token_of_parts
  follow_parts [] = refl
  follow_parts (scheme ∷ []) = refl
  follow_parts (scheme ∷ part ∷ []) = elim (Bool-cases (equal_fold scheme bearer)) [
    | inl same ↦ rw same (follow_part part)
    | inr other ↦ rw other refl
  ]
  follow_parts (_ ∷ _ ∷ _ ∷ _) = refl

  pub attempt_follows : attempt core validator next r ≡ follow (extract_bearer_token core r)
  unfolding attempt extract_bearer_token
  attempt_follows = elim (Bool-cases (text_eq (header_get r.header authorization) [])) [
    | inl empty ↦ rw empty refl
    | inr given ↦ rw given (follow_parts (split_two (header_get r.header authorization) b' '))
  ]

  -- Optional authentication hands a request from which `extractBearerToken` takes no token to the
  -- next handler as it came.
  attempt_no_token :
      (e : core.AppError)
      → extract_bearer_token core r ≡ err e
      → attempt core validator next r ≡ next r
  attempt_no_token e none_found = attempt_follows ∙ rw none_found refl

module _ (core : Core) {σ : Type 0} (validate : TokenValidator core σ) (next : Handler σ)
    (r : Request) (token : Text) (found : extract_bearer_token core r ≡ ok token)
    (conn : Connection) (s s' : σ) (w w' : Response) where
  attempt_ran :
      (result : Result (Error core.AppError) (Option Claims))
      → run conn (validate r.context token) s w
        ≡ record { end = returned result; state = s'; response = w' }
      → run conn (attempt core (some validate) next r) s w
        ≡ run conn (serve_result core next r result) s' w'
  unfolding serve_token resume
  attempt_ran result ran =
      rw (attempt_follows core (some validate) next r, found)
        (run-bind_of_eq conn (validate r.context token) _ s w ran)

  -- If the validator returns an error for the bearer token of a request, optional authentication
  -- runs the next handler on the request as it came, from where the validator ended.
  attempt_invalid_token :
      (e : Error core.AppError)
      → run conn (validate r.context token) s w
        ≡ record { end = returned (err e); state = s'; response = w' }
      → run conn (attempt core (some validate) next r) s w ≡ run conn (next r) s' w'
  unfolding serve_result
  attempt_invalid_token e ran = attempt_ran (err e) ran

  -- If the validator returns no error for the bearer token of a request, optional authentication
  -- runs as the mandatory middleware does with the same validator, whatever its other options, on a
  -- path that these do not exclude.
  attempt_as_handle :
      (cfg : Config core σ) (patterns : List Pattern) (claims : Option Claims)
      → should_exclude r.path cfg.exclude_paths patterns ≡ false
      → run conn (validate r.context token) s w
        ≡ record { end = returned (ok claims); state = s'; response = w' }
      → run conn (attempt core (some validate) next r) s w
        ≡ run conn (handle core cfg validate patterns next r) s w
  unfolding serve_result
  attempt_as_handle cfg patterns claims guarded ran =
      attempt_ran (ok claims) ran
      ∙ sym (
          handle_ran core cfg validate patterns r next token found guarded conn s s' w w' claims
            ran)
