-- ===== src/RateLimit/Laws/Serving.antt =====
-- What a request under a rate limit gets.
use txova_go_middleware.Base.{
  ◌≡◌, refl, ◌∙◌, Bool, true, false, Option, none, some, arith, Text, Text_eq, text_eq, codes,
}
use txova_go_middleware.Base.Int.{ℤ, ◌-ℤ◌}
use txova_go_middleware.Errors.{Core}
use txova_go_middleware.Errors.Reply.{encode, set_json_headers, status_text}
use txova_go_middleware.Http.Headers.{header_set, canonical}
use txova_go_middleware.Http.Program.{
  Request, WriteError, Program, ◌>>=◌, ◌>>◌, Handler, set, send_status,
}
use txova_go_middleware.Http.Server.{Response, Connection, returned, run, resume}
use txova_go_middleware.Http.Refusal.{Answered, Answers, run-bind_of_eq}
use txova_go_middleware.Http.JsonReply.{IsTail, ret-IsTail, send-IsTail, Answers-json_with}
use txova_go_middleware.RateLimit.{Limiter, Outcome, check, seconds}
use txova_go_middleware.RateLimit.Middleware.{
  unix, not_negative, skips, fallback, write_rate_limit_error, set_limit_headers, serve_outcome,
  limit_rate,
}

module _ (core : Core) (itoa : ℤ → Text) {σ : Type 0} (now : σ → ℤ) where
  fallback-IsTail : (e : Option WriteError) → IsTail (fallback core itoa now e)
  fallback-IsTail none = ret-IsTail
  fallback-IsTail (some e) = send-IsTail (status_text 429)

  -- What the error response does when the clock shows `t`.
  error_at : (reset_at t : ℤ) → Program σ (Unit {0})
  unfolding encode set_json_headers
  error_at reset_at t = do
    set_json_headers
    set (codes "Retry-After") (itoa (not_negative core itoa now (seconds (reset_at -ℤ t))))
    let e = core.rate_limited (codes "rate limit exceeded")
    send_status (core.status e)
    failed ← encode (core.response_json e)
    fallback core itoa now failed

  error_at-Answers : (reset_at t : ℤ) → Answers 429 (error_at reset_at t)
  unfolding error_at canonical text_eq
  error_at-Answers reset_at t = rw (core.status-rate_limited (codes "rate limit exceeded")) (
      Answers-json_with (codes "Retry-After")
        (itoa (not_negative core itoa now (seconds (reset_at -ℤ t)))) 429
        (core.response_json (core.rate_limited (codes "rate limit exceeded")))
        (fallback core itoa now) (refl, refl) (omega arith) (omega arith) fallback-IsTail)

  write_rate_limit_error-Answers :
      (reset_at : ℤ) → Answers 429 (write_rate_limit_error core itoa now reset_at)
  unfolding write_rate_limit_error error_at set_json_headers run
  write_rate_limit_error-Answers reset_at = record {
    answer = λ conn s w fresh. (error_at-Answers reset_at (now s)).answer conn s w fresh;
  }

  module _ (l : Limiter σ) (key_func : Request → Text) (skip_func : Option (Request → Bool))
      (next : Handler σ) (r : Request) (limited : skips skip_func r ≡ false) (conn : Connection)
      (s s' : σ) (w w' : Response) (o : Outcome)
      (checked : run conn (check now l r.context (key_func r)) s w
        ≡ record { end = returned o; state = s'; response = w' }) where
    serves :
        run conn (limit_rate core itoa now l key_func skip_func next r) s w
        ≡ run conn (serve_outcome core itoa now l next r o) s' w'
    unfolding limit_rate resume
    serves = rw limited (run-bind_of_eq conn (check now l r.context (key_func r)) _ s w checked)

    -- The response with the headers that tell the limit.
    abbrev pub tells : Response
    tells = record w' {
      header =
          header_set
            (header_set (header_set w'.header (codes "X-RateLimit-Limit") (itoa l.limit))
              (codes "X-RateLimit-Remaining") (itoa o.remaining))
            (codes "X-RateLimit-Reset") (itoa (unix o.reset_at));
    }

    -- A request that the limiter allows is served by the next handler, on a response whose three
    -- `X-RateLimit` headers tell the limit, what remains, and when the window ends. One that it
    -- does not allow is answered with the JSON error 429, whatever the next handler, if no status
    -- was sent before.
    pub limit_rate_decides :
        (o.allowed ≡ true
          → run conn (limit_rate core itoa now l key_func skip_func next r) s w
            ≡ run conn (next r) s' tells)
        × (o.allowed ≡ false
            → w'.status ≡ none
            → Answered 429 (run conn (limit_rate core itoa now l key_func skip_func next r) s w))
    unfolding serve_outcome set_limit_headers run
    limit_rate_decides = (
      λ allowed. serves ∙ rw allowed refl,
      λ denied fresh.
          rw serves
            (rw denied ((write_rate_limit_error-Answers o.reset_at).answer conn s' tells fresh)),
    )
