-- ===== src/Http/JsonReply.antt =====
-- The shape that the error responses share: headers, a status, an encoded body, and a fallback.
use txova_go_middleware.Base.{
  ℕ, ◌∙◌, ◌++◌, ◌≡◌, refl, ◌≤◌, true, false, Option, none, some, Text, codes, arith, text_eq,
}
use txova_go_middleware.Http.Headers.{Header, header_get, header_set, header_get-set, canonical}
use txova_go_middleware.Http.Program.{WriteError, Program, ret, ◌>>=◌, ◌>>◌, set, send_status, send}
use txova_go_middleware.Http.Server.{
  delivered, Response, Connection, returned, run, put_status, put_bytes, is_informational,
  is_valid_code,
}
use txova_go_middleware.Http.Refusal.{Answers}
use txova_go_middleware.Errors.Reply.{
  newline, content_type, content_type_options, encode, set_json_headers, http_error,
}

-- Run after a status was sent, the program ends normally and changes neither it nor its headers.
abbrev pub IsTail : {σ : Type 0} → Program σ (Unit {0}) → Type 0
IsTail {σ} m =
    (conn : Connection) (s : σ) (w : Response) (status : ℕ)
    → w.status ≡ some status
    → let r = run conn m s w in
      (r.end ≡ returned tt) × (r.response.status ≡ some status) × (r.response.sent ≡ w.sent)

pub ret-IsTail : {σ : Type 0} → IsTail {σ = σ} (ret tt)
unfolding run
ret-IsTail conn s w status e = (refl, e, refl)

pub send-IsTail : {σ : Type 0} (b : Text) → IsTail {σ = σ} (do _ ← send b; ret tt)
unfolding run put_bytes
send-IsTail b conn s w status e = rw e (refl, refl, refl)

pub http_error-IsTail :
    {σ : Type 0} (text : Text) (code : ℕ) → IsTail {σ = σ} (http_error text code)
unfolding run put_bytes http_error
http_error-IsTail text code conn s w status e = rw e (refl, refl, refl)

-- A response whose two JSON headers are set.
abbrev pub HasJsonHeaders : Header → Type 0
HasJsonHeaders h =
    (header_get h content_type ≡ codes "application/json; charset=utf-8")
    × (header_get h content_type_options ≡ codes "nosniff")

pub json_headers :
    (h : Header)
    → HasJsonHeaders (
        header_set
          (header_set h content_type (codes "application/json; charset=utf-8"))
          content_type_options
          (codes "nosniff"))
unfolding canonical text_eq
json_headers h = (simp header_get-set, simp header_get-set)

put_bytes-sent :
    (n : ℕ) (b : Text) (w : Response) (status : ℕ)
    → w.status ≡ some status
    → ((put_bytes n b w).status ≡ some status) × ((put_bytes n b w).sent ≡ w.sent)
unfolding put_bytes
put_bytes-sent n b w status e = rw e (refl, refl)

-- An encoded body, and a fallback.
pub encode-IsTail :
    {σ : Type 0} (body : Text) (k : Option WriteError → Program σ (Unit {0}))
    → ((e : Option WriteError) → IsTail (k e))
    → IsTail (do failed ← encode body; k failed)
unfolding run encode
encode-IsTail body k tail conn s w status e =
    let (n, failed) = delivered conn w (body ++ newline) in
    let (kept, same) = put_bytes-sent n (body ++ newline) w status e in
    let (ends, sends, headers) = tail failed conn s (put_bytes n (body ++ newline) w) status kept in
    (ends, sends, headers ∙ same)

-- A final status, and what may follow it.
pub send_final :
    {σ : Type 0} (status : ℕ) (m : Program σ (Unit {0}))
    → 200 ≤ status
    → status ≤ 999
    → IsTail m
    → (conn : Connection) (s : σ) (w : Response) → w.status ≡ none
    → let r = run conn (do send_status status; m) s w in
      (r.end ≡ returned tt) × (r.response.status ≡ some status) × (r.response.sent ≡ w.header)
unfolding run put_status
send_final status m low high tail conn s w fresh =
    let valid : is_valid_code status ≡ true = ground arith in
    let final : is_informational status ≡ false = ground arith in
    rw fresh (rw valid (rw final (tail conn s _ status refl)))

-- The shape of most error responses.
pub Answers-json :
    {σ : Type 0} (status : ℕ) (body : Text) (k : Option WriteError → Program σ (Unit {0}))
    → 200 ≤ status
    → status ≤ 999
    → ((e : Option WriteError) → IsTail (k e))
    → Answers status (do set_json_headers; send_status status; failed ← encode body; k failed)
unfolding set_json_headers run
Answers-json status body k low high tail = record {
  answer = λ conn s w fresh.
      let (ends, sends, same) =
        send_final status (do failed ← encode body; k failed) low high (encode-IsTail body k tail)
          conn s
          (record w {
            header =
                header_set
                  (header_set w.header content_type (codes "application/json; charset=utf-8"))
                  content_type_options (codes "nosniff");
          })
          fresh in
      (ends, sends, rw same (json_headers w.header).0, rw same (json_headers w.header).1);
}

-- A header of another name leaves the two alone.
abbrev pub IsOther : Text → Type 0
IsOther key =
    (text_eq (canonical key) (canonical content_type) ≡ false)
    × (text_eq (canonical key) (canonical content_type_options) ≡ false)

header_set-HasJsonHeaders :
    (h : Header) (key v : Text)
    → IsOther key
    → HasJsonHeaders h
    → HasJsonHeaders (header_set h key v)
header_set-HasJsonHeaders h key v other has =
    (rw (header_get-set, other.0) has.0, rw (header_get-set, other.1) has.1)

-- The same with one more header, and anything after the status.
pub Answers-with :
    {σ : Type 0} (key v : Text) (status : ℕ) (m : Program σ (Unit {0}))
    → IsOther key
    → 200 ≤ status
    → status ≤ 999
    → IsTail m
    → Answers status (do set_json_headers; set key v; send_status status; m)
unfolding set_json_headers run
Answers-with key v status m other low high tail = record {
  answer = λ conn s w fresh.
      let typed =
        header_set (header_set w.header content_type (codes "application/json; charset=utf-8"))
          content_type_options (codes "nosniff") in
      let (ends, sends, same) =
        send_final status m low high tail conn s (record w { header = header_set typed key v })
          fresh in
      let has = header_set-HasJsonHeaders typed key v other (json_headers w.header) in
      (ends, sends, rw same has.0, rw same has.1);
}

pub Answers-json_with :
    {σ : Type 0} (key v : Text) (status : ℕ) (body : Text)
    (k : Option WriteError → Program σ (Unit {0}))
    → IsOther key
    → 200 ≤ status
    → status ≤ 999
    → ((e : Option WriteError) → IsTail (k e))
    → Answers status
        (do set_json_headers; set key v; send_status status; failed ← encode body; k failed)
Answers-json_with key v status body k other low high tail =
    Answers-with key v status (do failed ← encode body; k failed) other low high
      (encode-IsTail body k tail)
