-- ===== src/Tests/Denials.antt =====
-- A service with a route for administrators, asked by a driver and by a client without a token.
use txova_go_middleware.Base.{
  ℕ, ◌+◌, ◌≡◌, ◌≢◌, ◌⊎◌, inl, inr, ◌++◌, refl, some, none, true, List, [], ◌∷◌, Any, Holds, Text,
  Text_eq, text_eq, contains, contains_iff, codes, index, equal_fold, trim_space, split_two, arith,
  ok, ne_of_text_eq,
}
use txova_go_middleware.Base.Int.{ℤ, pos}
use txova_go_middleware.Context.{Context, background}
use txova_go_middleware.Http.Headers.{header_get, canonical}
use txova_go_middleware.Http.Program.{Request, load, store, ret}
use txova_go_middleware.Http.Server.{returned, run, new_response, Response}
use txova_go_middleware.Http.Final.{SendsFinal}
use txova_go_middleware.Http.Logging.{Logger}
use txova_go_middleware.Auth.Bearer.{extract_bearer_token, token_of, token_of_parts}
use txova_go_middleware.Auth.Guard.{TokenValidator, Config, Pattern}
use txova_go_middleware.Auth.Guard.Final.{HasFinalStatuses}
use txova_go_middleware.RequestId
use txova_go_middleware.RequestId.{Generator}
use txova_go_middleware.RequestLog
use txova_go_middleware.Pipeline.Service.Laws.Denials.{
  at_route, response_at_route, DeniedAndLogged, no_role_logged,
}
use txova_go_middleware.Tests.Samples.{core, conn, driver, get, serve}

finals : HasFinalStatuses core
finals e = ground arith

abbrev admins : List Text
admins = codes "admin" ∷ []

abbrev cfg : Config core ℕ
cfg = record {
  validator = none;
  logger = none;
  audit_logger = none;
  exclude_paths = codes "/health" ∷ [];
  exclude_patterns = [];
}

-- A validator that finds the driver.
abbrev validate : TokenValidator core ℕ
validate ctx token = ret (ok (some driver))

validate-SendsFinal : (ctx : Context) (token : Text) → SendsFinal (validate ctx token)
unfolding SendsFinal
validate-SendsFinal ctx token = tt

serve-SendsFinal : (r : Request) → SendsFinal (serve r)
unfolding SendsFinal
serve-SendsFinal r = ((refl, refl), λ n e. tt)

abbrev stack_trace : ℕ → Text
stack_trace n = codes "goroutine 1"

abbrev to_lower : Text → Text
to_lower s = s

abbrev now : ℕ → ℤ
now n = pos 0

abbrev counting : Logger ℕ
counting entry n = n + 1

abbrev counter : Generator ℕ
counter = load (λ n. store (n + 1) (ret (codes "id" ++ n ∷ [])))

abbrev bearing : Request
bearing =
    get
      ((codes "X-Request-Id", codes "abc" ∷ [])
        ∷ (codes "Authorization", codes "Bearer xyz" ∷ [])
        ∷ [])
      background

-- What the route is given, and what the client and the log get.
abbrev given : Request → Request
given r =
    at_route core cfg validate [] admins [] serve finals validate-SendsFinal serve-SendsFinal
      stack_trace to_lower now counter [] none [] counting [] r conn 0 new_response

abbrev prepared : Request → Response
prepared r =
    response_at_route core cfg validate [] admins [] serve finals validate-SendsFinal
      serve-SendsFinal stack_trace to_lower now counter [] none [] counting [] r conn 0 new_response

abbrev Denied : Request → ℕ → Type 0
Denied r status =
    DeniedAndLogged core cfg validate [] admins [] serve finals validate-SendsFinal serve-SendsFinal
      stack_trace to_lower now counter [] none [] counting [] r conn 0 new_response status

bearing_has_id : header_get bearing.header (RequestId.configure counter []).header_name ≢ []
unfolding header_get canonical text_eq RequestId.configure
bearing_has_id = ne_of_text_eq (codes "abc") [] refl

rides_logged : ¬ Holds (RequestLog.configure []).exclude_paths (codes "/rides")
unfolding RequestLog.configure contains text_eq
rides_logged h =
    let e = (contains_iff (RequestLog.configure []).exclude_paths (codes "/rides")).1 h in cc

rides_guarded : ¬ (
    Holds cfg.exclude_paths (codes "/rides")
    ⊎ Any {A = Pattern} (λ re. re (codes "/rides") ≡ true) [])
unfolding contains text_eq
rides_guarded (inl h) = let e = (contains_iff cfg.exclude_paths (codes "/rides")).1 h in cc
rides_guarded (inr h) = h

xyz_found : extract_bearer_token core (given bearing) ≡ ok (codes "xyz")
unfolding extract_bearer_token header_get canonical text_eq token_of_parts token_of split_two index
    equal_fold trim_space
xyz_found = refl

validated :
    run conn (validate (given bearing).context (codes "xyz")) 0 (prepared bearing)
    ≡ record { end = returned (ok (some driver)); state = 0; response = prepared bearing }
unfolding run
validated = refl

no_admin : ¬ Any (Holds driver.roles) admins
unfolding contains text_eq
no_admin (inl h) = let e = (contains_iff driver.roles (codes "admin")).1 h in cc
no_admin (inr h) = h

no_role_logged_example : Denied bearing 403
no_role_logged_example =
    no_role_logged core cfg validate [] admins [] serve finals validate-SendsFinal serve-SendsFinal
      stack_trace to_lower now counter [] none [] counting [] bearing conn 0 new_response refl
      bearing_has_id rides_logged rides_guarded (codes "xyz") xyz_found 0 (prepared bearing) driver
      validated refl no_admin
