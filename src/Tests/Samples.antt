-- ===== src/Tests/Samples.antt =====
-- Sample values: errors, claims, requests and handlers.
use txova_go_middleware.Base.{
  ℕ, ◌≡◌, ◌≤◌, refl, Bool, true, false, Option, none, some, [], ◌∷◌, ◌==◌, leb, if◌then◌else◌, Text,
  Text_eq, codes, arith, length,
}
use txova_go_middleware.Base.Int.{pos}
use txova_go_middleware.Context.{Claims, Context, background}
use txova_go_middleware.Errors.{Error, app, other, Core}
use txova_go_middleware.Http.Headers.{Header}
use txova_go_middleware.Http.Program.{
  Request, WriteError, Program, ret, ◌>>=◌, ◌>>◌, Handler, send_status, send,
}
use txova_go_middleware.Http.Server.{
  delivered, Response, Connection, returned, run, put_status, put_bytes, is_valid_code,
  is_informational,
}

-- An error: its code, and its status.
pub record AppError : Type 0 where
  pub name : Text
  pub http : ℕ

abbrev pub error_of : Text → ℕ → Text → AppError
error_of name http message = record { name = name; http = http }

abbrev pub from : Error AppError → AppError
from (app e) = e
from (other text) = error_of (codes "INTERNAL_ERROR") 500 text

abbrev pub has_code : Error AppError → Text → Bool
has_code (app e) c = e.name == c
has_code (other text) c = false

abbrev pub text_of : Error AppError → Text
text_of (app e) = e.name
text_of (other text) = text

-- The status of an error; one that is out of range is 500.
abbrev pub status_of : AppError → ℕ
status_of e = if leb 200 e.http then if leb e.http 999 then e.http else 500 else 500

abbrev pub put_json : {σ : Type 0} → AppError → Program σ (Option WriteError)
put_json e = do send_status (status_of e); (n, failed) ← send e.name; ret failed

sends_code :
    {σ : Type 0} (code : ℕ) (b : Text) (conn : Connection) (s : σ) (w : Response)
    → w.status ≡ none
    → 200 ≤ code
    → code ≤ 999
    → (failed : Option WriteError) × (w' : Response) × (w'.status ≡ some code)
      × (run conn (do send_status code; (n, e) ← send b; ret e) s w
          ≡ record { end = returned failed; state = s; response = w' })
unfolding run put_status put_bytes
sends_code code b conn s w fresh low high =
    let valid : is_valid_code code ≡ true = ground arith in
    let final : is_informational code ≡ false = ground arith in
    let started = put_status code w in
    (
      (delivered conn started b).1,
      put_bytes (delivered conn started b).0 b started,
      rw (fresh, final) refl,
      rw (fresh, valid, final) refl,
    )

pub put_json_sends :
    {σ : Type 0} (e : AppError) (conn : Connection) (s : σ) (w : Response)
    → w.status ≡ none
    → 200 ≤ status_of e
    → status_of e ≤ 999
    → (failed : Option WriteError) × (w' : Response) × (w'.status ≡ some (status_of e))
      × (run conn (put_json e) s w ≡ record { end = returned failed; state = s; response = w' })
put_json_sends e conn s w fresh low high = sends_code (status_of e) e.name conn s w fresh low high

abbrev pub core : Core
core = record {
  AppError = AppError;
  new = λ c m. error_of c 500 m;
  code = λ e. e.name;
  status = status_of;
  response_json = λ e. e.name;
  from_error = from;
  is_code = has_code;
  error_text = text_of;
  invalid_credentials = error_of (codes "INVALID_CREDENTIALS") 401;
  forbidden = error_of (codes "FORBIDDEN") 403;
  validation_error = error_of (codes "VALIDATION_ERROR") 400;
  token_invalid = error_of (codes "TOKEN_INVALID") 401;
  token_expired = error_of (codes "TOKEN_EXPIRED") 401;
  internal_error = error_of (codes "INTERNAL_ERROR") 500;
  rate_limited = error_of (codes "RATE_LIMITED") 429;
  service_unavailable = error_of (codes "SERVICE_UNAVAILABLE") 503;
  write_json = put_json;
  code-new = λ c m. refl;
  from_error-app = λ e. refl;
  is_code-app = λ e c. refl;
  code-token_invalid = λ m. refl;
  code-token_expired = λ m. refl;
  code-internal_error = λ m. refl;
  status-invalid_credentials = λ m. refl;
  status-forbidden = λ m. refl;
  status-validation_error = λ m. refl;
  status-token_invalid = λ m. refl;
  status-token_expired = λ m. refl;
  status-internal_error = λ m. refl;
  status-rate_limited = λ m. refl;
  status-service_unavailable = λ m. refl;
  run-write_json = put_json_sends;
}

-- A connection that takes every byte.
abbrev pub conn : Connection
conn w b = (length b, none)

abbrev pub driver : Claims
driver = record {
  registered = [];
  user_id = codes "u1";
  user_type = codes "driver";
  roles = codes "driver" ∷ codes "support" ∷ [];
  permissions = codes "ride:read" ∷ codes "ride:accept" ∷ [];
}

abbrev pub get : Header → Context → Request
get header context = record {
  method = codes "GET";
  path = codes "/rides";
  raw_query = [];
  header = header;
  remote_addr = codes "192.168.1.1:12345";
  content_length = pos 0;
  context = context;
}

abbrev pub plain : Request
plain = get [] background

-- The handler that answers 200.
abbrev pub serve : Handler ℕ
serve r = do send_status 200; (n, failed) ← send (codes "ok"); ret tt
