-- ===== src/Errors.antt =====
-- errors.go: the middleware's error codes, their statuses, and the checks. The errors themselves
-- come from txova-go-core/errors, which is not part of this repository: the record `Core` holds
-- what the program calls of it, with what its documentation says of codes and statuses.
pub mod Laws
pub mod Reply
pub mod WriteJson
use txova_go_middleware.Base.{
  ℕ, ◌≤◌, ◌≡◌, Bool, true, false, List, [], ◌∷◌, Option, none, some, Text, Text_eq, text_eq, codes,
  ◌==◌, if◌then◌else◌,
}
use txova_go_middleware.Http.Program.{WriteError, Program}
use txova_go_middleware.Http.Server.{Response, Connection, Run, End, returned, run}

-- `errors.Code` is a string type.
abbrev pub code_token_required : Text
code_token_required = codes "TOKEN_REQUIRED"

abbrev pub code_request_timeout : Text
code_request_timeout = codes "REQUEST_TIMEOUT"

abbrev pub code_maintenance_mode : Text
code_maintenance_mode = codes "MAINTENANCE_MODE"

-- The map `codeHTTPStatus`.
abbrev pub code_http_status : List (Text × ℕ)
code_http_status =
    (code_token_required, 401) ∷ (code_request_timeout, 503) ∷ (code_maintenance_mode, 503) ∷ []

unfoldable pub lookup_status : Text → List (Text × ℕ) → Option ℕ
lookup_status code [] = none
lookup_status code ((c, status) ∷ m) = if c == code then some status else lookup_status code m

abbrev or_internal : Option ℕ → ℕ
or_internal (some status) = status
or_internal none = 500

unfoldable pub http_status : Text → ℕ
unfolding lookup_status
http_status code = or_internal (lookup_status code code_http_status)

-- A Go `error` that is not nil: an `*errors.AppError`, or any other error with its text.
pub data Error (E : Type 0) : Type 0 where
  app : E → Error E
  other : Text → Error E

-- What the program uses of txova-go-core/errors.
pub record Core : Type 1 where
  pub AppError : Type 0
  pub new : Text → Text → AppError  -- errors.New(code, message)
  pub code : AppError → Text
  pub status : AppError → ℕ  -- HTTPStatus()
  pub response_json : AppError → Text  -- ToResponse(), as encoding/json writes it
  pub from_error : Error AppError → AppError
  pub is_code : Error AppError → Text → Bool
  pub error_text : Error AppError → Text  -- Error()
  pub invalid_credentials : Text → AppError
  pub forbidden : Text → AppError
  pub validation_error : Text → AppError
  pub token_invalid : Text → AppError
  pub token_expired : Text → AppError
  pub internal_error : Text → AppError
  pub rate_limited : Text → AppError
  pub service_unavailable : Text → AppError
  -- `WriteJSON(w)`, with the error of the encoder.
  pub write_json : {σ : Type 0} → AppError → Program σ (Option WriteError)
  pub code-new : (c m : Text) → code (new c m) ≡ c
  pub from_error-app : (e : AppError) → from_error (app e) ≡ e
  pub is_code-app : (e : AppError) (c : Text) → is_code (app e) c ≡ (code e == c)
  pub code-token_invalid : (m : Text) → code (token_invalid m) ≡ codes "TOKEN_INVALID"
  pub code-token_expired : (m : Text) → code (token_expired m) ≡ codes "TOKEN_EXPIRED"
  pub code-internal_error : (m : Text) → code (internal_error m) ≡ codes "INTERNAL_ERROR"
  pub status-invalid_credentials : (m : Text) → status (invalid_credentials m) ≡ 401
  pub status-forbidden : (m : Text) → status (forbidden m) ≡ 403
  pub status-validation_error : (m : Text) → status (validation_error m) ≡ 400
  pub status-token_invalid : (m : Text) → status (token_invalid m) ≡ 401
  pub status-token_expired : (m : Text) → status (token_expired m) ≡ 401
  pub status-internal_error : (m : Text) → status (internal_error m) ≡ 500
  pub status-rate_limited : (m : Text) → status (rate_limited m) ≡ 429
  pub status-service_unavailable : (m : Text) → status (service_unavailable m) ≡ 503
  -- On a response that has sent nothing yet it sends the error's status, and returns.
  pub run-write_json :
      {σ : Type 0} (e : AppError) (conn : Connection) (s : σ) (w : Response)
      → w.status ≡ none
      → 200 ≤ status e
      → status e ≤ 999
      → (failed : Option WriteError) × (w' : Response) × (w'.status ≡ some (status e))
        × (run conn (write_json e) s w ≡ record { end = returned failed; state = s; response = w' })

module _ (core : Core) where
  unfoldable pub token_required : core.AppError
  token_required = core.new code_token_required (codes "authorization token is required")

  unfoldable pub request_timeout : core.AppError
  request_timeout = core.new code_request_timeout (codes "request timeout exceeded")

  unfoldable pub maintenance_mode : Text → core.AppError
  unfolding text_eq
  maintenance_mode message = core.new code_maintenance_mode (
      if message == [] then codes "service is temporarily unavailable for maintenance" else message)

  unfoldable pub is_token_required : Error core.AppError → Bool
  is_token_required err = core.is_code err code_token_required

  unfoldable pub is_request_timeout : Error core.AppError → Bool
  is_request_timeout err = core.is_code err code_request_timeout

  unfoldable pub is_maintenance_mode : Error core.AppError → Bool
  is_maintenance_mode err = core.is_code err code_maintenance_mode
