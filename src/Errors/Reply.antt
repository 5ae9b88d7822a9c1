-- ===== src/Errors/Reply.antt =====
-- What the error responses of the packages share: the headers that each sets, the JSON encoder,
-- and package net/http's `http.Error` and `http.StatusText`.
use txova_go_middleware.Base.{ℕ, ◌==◌, ℕ_eq, [], ◌∷◌, ◌++◌, Option, Text, codes, if◌then◌else◌}
use txova_go_middleware.Http.Program.{WriteError, Program, ret, ◌>>=◌, ◌>>◌, set, send_status, send}

abbrev pub newline : Text
newline = 10 ∷ []

-- `json.NewEncoder(w).Encode(v)` for a value that is written as `text`: one `Write`, and its error.
unfoldable pub encode : {σ : Type 0} → Text → Program σ (Option WriteError)
encode text = do (n, err) ← send (text ++ newline); ret err

abbrev pub content_type : Text
content_type = codes "Content-Type"

abbrev pub content_type_options : Text
content_type_options = codes "X-Content-Type-Options"

-- The two headers that every error response of the program sets first.
unfoldable pub set_json_headers : {σ : Type 0} → Program σ (Unit {0})
set_json_headers = do
  set content_type (codes "application/json; charset=utf-8")
  set content_type_options (codes "nosniff")

-- `http.StatusText`, for the codes that the program asks it for.
unfoldable pub status_text : ℕ → Text
status_text code =
    if code == 400
    then codes "Bad Request"
    else if code == 401
    then codes "Unauthorized"
    else if code == 403
    then codes "Forbidden"
    else if code == 429
    then codes "Too Many Requests"
    else if code == 500
    then codes "Internal Server Error"
    else if code == 503
    then codes "Service Unavailable"
    else []

-- `http.Error(w, text, code)`; the headers that it deletes are never set by this program.
unfoldable pub http_error : {σ : Type 0} → Text → ℕ → Program σ (Unit {0})
http_error text code = do
  set content_type (codes "text/plain; charset=utf-8")
  set content_type_options (codes "nosniff")
  send_status code
  (n, err) ← send (text ++ newline)
  ret tt
