-- ===== src/Maintenance/Laws/Body.antt =====
-- What the body of the response in maintenance mode is.
use txova_go_middleware.Base.{
  ℕ, ◌≡◌, refl, Option, none, some, ◌++◌, take, Text, Text_eq, codes, Result, ok, err,
}
use txova_go_middleware.Errors.{Core}
use txova_go_middleware.Errors.Reply.{newline, encode, set_json_headers, http_error, status_text}
use txova_go_middleware.Http.Headers.{Header}
use txova_go_middleware.Http.Program.{WriteError, ◌>>=◌}
use txova_go_middleware.Http.Server.{Response, Connection, delivered, run, put_status, put_bytes}
use txova_go_middleware.Maintenance.{Reply, fallback, encode_result, write_maintenance_response}

abbrev pub unavailable_text : Text
unavailable_text = codes "Service Unavailable" ++ newline

-- The body after a write of `b`, of which the connection took some bytes, or failed: then some of
-- the text of the status follows.
abbrev pub After : ℕ × Option WriteError → (b before after : Text) → Type 0
After (n, none) b before after = after ≡ before ++ take n b
After (n, some e) b before after =
    (m : ℕ) × (after ≡ (before ++ take n b) ++ take m unavailable_text)

-- The body of the response is that encoding and a newline; the connection is asked to take it once
-- the status 503 was sent.
abbrev pub Written : Connection → Result Text Text → (before after : Text) → Type 0
Written conn (ok text) before after =
    (u : Response) × (u.status ≡ some 503)
    × (u.body ≡ before)
    × After (conn u (text ++ newline)) (text ++ newline) before after
Written conn (err e) before after = (m : ℕ) × (after ≡ before ++ take m unavailable_text)

module _ (conn : Connection) {σ : Type 0} (s : σ) (w : Response) (h : Header) where
  -- The response once the status was sent, with some body.
  abbrev started : Text → Response
  started body = record w { header = h; status = some 503; sent = h; body = body }

  fallback-After :
      (d : ℕ × Option WriteError) (b : Text)
      → After d b w.body (run conn (fallback d.1) s (started (w.body ++ take d.0 b))).response.body
  unfolding run put_bytes put_status delivered http_error status_text
  fallback-After (n, none) b = refl
  fallback-After (n, some e) b = (_, refl)

  encoded-Written :
      (body : Result Text Text)
      → Written conn body w.body
          (run conn
            (do failed ← encode_result body; fallback failed)
            s
            (started w.body)).response.body
  unfolding run put_bytes put_status delivered http_error status_text encode_result encode
  encoded-Written (ok text) = (
    started w.body,
    refl,
    refl,
    fallback-After (conn (started w.body) (text ++ newline)) (text ++ newline),
  )
  encoded-Written (err e) = (_, refl)

module _ (core : Core) {Time : Type 0} (marshal : Reply Time → Result Text Text) {σ : Type 0} where
  pub write_maintenance_response-Written :
      (message : Text) (end_time : Option Time) (conn : Connection) (s : σ) (w : Response)
      → w.status ≡ none
      → Written conn
          (marshal
            (record { code = codes "SERVICE_UNAVAILABLE"; message = message; end_time = end_time }))
          w.body
          (run conn (write_maintenance_response core marshal message end_time) s w).response.body
  unfolding write_maintenance_response set_json_headers run put_status
  write_maintenance_response-Written message end_time conn s w fresh =
      rw (core.status-service_unavailable message, fresh) (encoded-Written conn s w _ _)
