-- ===== src/Tests/Tokens.antt =====
-- Bearer tokens, their validator, and the middlewares that ask it.
use txova_go_middleware.Base.{
  ℕ, ◌+◌, ◌≡◌, ◌≢◌, ◌⊎◌, inl, inr, refl, true, false, Option, none, some, [], ◌∷◌, Any, Holds, Text,
  Text_eq, text_eq, contains, contains_iff, codes, index, equal_fold, trim_space, split_two, arith,
  Result, ok, err,
}
use txova_go_middleware.Context.{Claims, Context, background}
use txova_go_middleware.Context.Laws.{view}
use txova_go_middleware.Errors.{Error, app, token_required}
use txova_go_middleware.Http.Headers.{header_get, canonical}
use txova_go_middleware.Http.Program.{Request, Handler, ret, load, store, with_context}
use txova_go_middleware.Http.Server.{returned, run, new_response}
use txova_go_middleware.Http.Refusal.{Answered, Refuses, Passes}
use txova_go_middleware.Auth.Bearer.{
  authorization, malformed_header, empty_token, extract_bearer_token, token_of, token_of_parts,
}
use txova_go_middleware.Auth.Bearer.Laws.{IsBearer, extract_bearer_token_decides}
use txova_go_middleware.Auth.Guard.{TokenValidator, Config, Pattern, handle}
use txova_go_middleware.Auth.Guard.Laws.{
  handle-Refuses_no_token, handle_invalid_token, handle_valid_token,
}
use txova_go_middleware.Auth.Guard.Inputs.{with_claims_view}
use txova_go_middleware.Auth.Validator.{
  rsa, ParserOptions, ValidatorConfig, Validator, Jwt, token_expired, token_not_valid_yet,
  token_malformed, signature_invalid, token_signature_invalid, validate,
}
use txova_go_middleware.Auth.Optional.{attempt}
use txova_go_middleware.Auth.Optional.Laws.Verified.{attempt_verifies}
use txova_go_middleware.Pipeline.{role_route}
use txova_go_middleware.Pipeline.Laws.Verified.{route_verifies}
use txova_go_middleware.Auth.Guard.Verified.{validate_token, Bears, handle_verifies}
use txova_go_middleware.Auth.Validator.Laws.Demands.{Demands}
use txova_go_middleware.Auth.Validator.Laws.Decisions.{
  IsAddressed, Expires, Rejects, validate_decides,
}
use txova_go_middleware.Tests.Samples.{AppError, error_of, core, conn, driver, get, plain, serve}

abbrev bearing : Request
bearing = get ((codes "Authorization", codes "bearer abc" ∷ []) ∷ []) background

extract_bearer_token_decides_example :
    let header = header_get bearing.header authorization in
    ((header ≡ []) × (extract_bearer_token core bearing ≡ err (token_required core)))
    ⊎ ((header ≢ [])
        × ((credentials : Text) → ¬ IsBearer header credentials)
        × (extract_bearer_token core bearing ≡ err (malformed_header core)))
    ⊎ ((credentials : Text) × IsBearer header credentials
        × (((trim_space credentials ≡ [])
              × (extract_bearer_token core bearing ≡ err (empty_token core)))
            ⊎ ((trim_space credentials ≢ [])
                × (extract_bearer_token core bearing ≡ ok (trim_space credentials)))))
extract_bearer_token_decides_example = extract_bearer_token_decides core bearing

abc_found : extract_bearer_token core bearing ≡ ok (codes "abc")
unfolding extract_bearer_token header_get canonical text_eq token_of_parts token_of split_two index
    equal_fold trim_space
abc_found = refl

none_found : extract_bearer_token core plain ≡ err (token_required core)
unfolding extract_bearer_token header_get text_eq
none_found = refl

-- A validator that counts its calls, and answers in one way.
abbrev answering : Result (Error AppError) (Option Claims) → TokenValidator core ℕ
answering result ctx token = load (λ n. store (n + 1) (ret result))

abbrev cfg : Config core ℕ
cfg = record {
  validator = none;
  logger = none;
  audit_logger = none;
  exclude_paths = codes "/health" ∷ [];
  exclude_patterns = [];
}

answers :
    (result : Result (Error AppError) (Option Claims))
    → run conn (answering result bearing.context (codes "abc")) 0 new_response
      ≡ record { end = returned result; state = 1; response = new_response }
unfolding run
answers result = refl

rides_guarded : ¬ (
    Holds cfg.exclude_paths (codes "/rides")
    ⊎ Any {A = Pattern} (λ re. re (codes "/rides") ≡ true) [])
unfolding contains text_eq
rides_guarded (inl h) = let e = (contains_iff cfg.exclude_paths (codes "/rides")).1 h in cc
rides_guarded (inr h) = h

handle-Refuses_no_token_example : Refuses 401 (handle core cfg (answering (ok none)) []) plain
handle-Refuses_no_token_example =
    handle-Refuses_no_token core cfg (answering (ok none)) [] plain rides_guarded
      (token_required core) none_found

abbrev expired : Error AppError
expired = app (error_of (codes "TOKEN_EXPIRED") 401 (codes "token has expired"))

handle_invalid_token_example :
    Answered 401
      (run conn (handle core cfg (answering (err expired)) [] serve bearing) 0 new_response)
    × (run conn (handle core cfg (answering (err expired)) [] serve bearing) 0 new_response
        ≡ run conn
            (handle core cfg (answering (err expired)) [] (λ r. ret tt) bearing)
            0
            new_response)
unfolding txova_go_middleware.Errors.http_status text_eq
handle_invalid_token_example =
    handle_invalid_token core cfg (answering (err expired)) [] bearing rides_guarded (codes "abc")
      abc_found conn 0 1 new_response new_response expired 401 serve (λ r. ret tt)
      (answers (err expired)) refl refl (omega arith) (omega arith)

handle_valid_token_example :
    (ctx : Context) × (view (some ctx) ≡ with_claims_view driver (view (some bearing.context)))
    × (run conn (handle core cfg (answering (ok (some driver))) [] serve bearing) 0 new_response
        ≡ run conn (serve (with_context bearing ctx)) 1 new_response)
handle_valid_token_example =
    handle_valid_token core cfg (answering (ok (some driver))) [] bearing rides_guarded
      (codes "abc") abc_found conn 0 1 new_response new_response driver serve
      (answers (ok (some driver)))

abbrev key_config : ValidatorConfig
key_config = record {
  public_key = some (rsa (codes "k"));
  issuer = codes "txova";
  audience = codes "api" ∷ [];
}

abbrev key_validator : Validator
key_validator = record {
  public_key = rsa (codes "k");
  issuer = codes "txova";
  audience = codes "api" ∷ [];
}

-- A package jwt in which every token is the driver's, and every error is that it has expired.
abbrev jwt : Jwt
jwt = record {
  JwtError = Unit;
  is = λ e failure. elim failure [
    | token_expired ↦ true
    | token_not_valid_yet ↦ false
    | token_malformed ↦ false
    | signature_invalid ↦ false
    | token_signature_invalid ↦ false
  ];
  error_text = λ e. [];
  parse_with_claims = λ options key token. ok (driver, true);
  get_audience = λ registered. some (codes "api" ∷ []);
}

validate_decides_example :
    (o : ParserOptions) × Demands key_validator o
    × let parsed = jwt.parse_with_claims o key_validator.public_key (codes "abc") in
      ((c : Claims) × (codes "abc" ≢ [])
        × (parsed ≡ ok (c, true))
        × IsAddressed core jwt key_validator c
        × (validate core jwt key_validator (codes "abc") ≡ ok c))
      ⊎ ((a : core.AppError) × (validate core jwt key_validator (codes "abc") ≡ err a)
          × (core.status a ≡ 401)
          × (((core.code a ≡ codes "TOKEN_EXPIRED") × (codes "abc" ≢ []) × Expires core jwt parsed)
              ⊎ ((core.code a ≡ codes "TOKEN_INVALID")
                  × ((codes "abc" ≡ []) ⊎ Rejects core jwt key_validator parsed))))
validate_decides_example = validate_decides core jwt key_validator (codes "abc")

route_verifies_example :
    let roles = codes "driver" ∷ [] in
    let route = role_route core cfg (validate_token core jwt key_validator) [] roles [] in
    ((c : Claims) × Bears core jwt key_validator bearing c
      × Any (Holds c.roles) roles
      × (ctx : Context) × (view (some ctx) ≡ with_claims_view c (view (some bearing.context)))
      × ((next : Handler ℕ) → route next bearing ≡ next (with_context bearing ctx)))
    ⊎ ((c : Claims) × Bears core jwt key_validator bearing c
        × (¬ Any (Holds c.roles) roles)
        × Refuses 403 route bearing)
    ⊎ ((¬ ((c : Claims) × Bears core jwt key_validator bearing c)) × Refuses 401 route bearing)
route_verifies_example =
    route_verifies core jwt key_validator cfg [] (codes "driver" ∷ []) [] bearing rides_guarded

handle_verifies_example :
    let verified = handle core cfg (validate_token core jwt key_validator) [] in
    ((c : Claims) × Bears core jwt key_validator bearing c
      × (ctx : Context) × (view (some ctx) ≡ with_claims_view c (view (some bearing.context)))
      × ((next : Handler ℕ) → verified next bearing ≡ next (with_context bearing ctx)))
    ⊎ ((¬ ((c : Claims) × Bears core jwt key_validator bearing c)) × Refuses 401 verified bearing)
handle_verifies_example = handle_verifies core jwt key_validator cfg [] bearing rides_guarded

attempt_verifies_example :
    let verified = attempt core (some (validate_token core jwt key_validator {σ = ℕ})) in
    ((c : Claims) × Bears core jwt key_validator bearing c
      × (ctx : Context) × (view (some ctx) ≡ with_claims_view c (view (some bearing.context)))
      × ((next : Handler ℕ) → verified next bearing ≡ next (with_context bearing ctx)))
    ⊎ ((¬ ((c : Claims) × Bears core jwt key_validator bearing c)) × Passes verified bearing)
attempt_verifies_example = attempt_verifies core jwt key_validator bearing
