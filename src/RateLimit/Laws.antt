-- ===== src/RateLimit/Laws.antt =====
-- Which requests a limiter allows.
pub mod Serving
pub mod Store
pub mod Keys
pub mod Failing
pub mod Limiting
pub mod Limits
pub mod Refinement
use txova_go_middleware.Base.{
  ℕ, ◌+◌, ◌≡◌, ◌≢◌, ◌≤◌, ◌<◌, ◌↔◌, ◌⊎◌, inl, inr, refl, sym, ap, ◌∙◌, Bool, true, false, Option,
  none, some, List, [], ◌∷◌, ◌++◌, arith, if◌then◌else◌, Bool-cases, Text, Text_eq, text_eq, codes,
  Result, ok, err,
}
use txova_go_middleware.Base.Int.{ℤ, pos, negsuc, ◌≤ℤ◌, ◌-ℤ◌, leb_ℤ, ltb_ℤ}
use txova_go_middleware.Context.{Context}
use txova_go_middleware.Errors.{Core}
use txova_go_middleware.Errors.Reply.{
  encode, set_json_headers, status_text, content_type, content_type_options,
}
use txova_go_middleware.Http.Headers.{Header, header_get, header_set, header_get-set, canonical}
use txova_go_middleware.Http.Program.{Request, WriteError, Program, ret, ◌>>=◌, ◌>>◌, Handler}
use txova_go_middleware.Http.Server.{Response, Connection, End, returned, Run, run, resume}
use txova_go_middleware.Http.Refusal.{Answered, Answers, run-bind_of_eq}
use txova_go_middleware.Http.JsonReply.{
  IsTail, ret-IsTail, send-IsTail, encode-IsTail, Answers-json_with,
}
use txova_go_middleware.RateLimit.{
  EvalResult, RedisClient, Limiter, Outcome, count_of, seconds, incr_with_expire_script, wrap_int,
  calculate_result, allow, atomic_count, after_count, after_incr, check,
}

leb_ℤ_iff : (a b : ℤ) → (leb_ℤ a b ≡ true) ↔ (a ≤ℤ b)
leb_ℤ_iff a b = ground arith

at_least_zero : (x : ℤ) → pos 0 ≤ℤ (if ltb_ℤ x (pos 0) then pos 0 else x)
at_least_zero (pos n) = ground arith
at_least_zero (negsuc n) = ground arith

module _ {σ : Type 0} (now : σ → ℤ) (l : Limiter σ) (ctx : Context) (key : Text)
    (conn : Connection) where
  abbrev pub full_key : Text
  full_key = l.key_prefix ++ codes ":" ++ key

  -- What an outcome says of a count.
  abbrev pub Reports : ℤ → Outcome → Type 0
  Reports count o =
      (o.count ≡ count) × ((o.allowed ≡ true) ↔ (count ≤ℤ l.limit)) × (pos 0 ≤ℤ o.remaining)

  calculated :
      (count : ℤ) (s1 s2 : σ) (w1 w2 : Response) (ttl : Result Text ℤ)
      → run conn (l.client.ttl ctx full_key) s1 w1
        ≡ record { end = returned ttl; state = s2; response = w2 }
      → (o : Outcome) × Reports count o
        × (run conn (calculate_result now l ctx full_key count) s1 w1
            ≡ record { end = returned o; state = s2; response = w2 })
  unfolding calculate_result run resume
  calculated count s1 s2 w1 w2 ttl ran = (
    _,
    (refl, leb_ℤ_iff count l.limit, at_least_zero (wrap_int (l.limit -ℤ count))),
    run-bind_of_eq conn (l.client.ttl ctx full_key) _ s1 w1 ran,
  )

  module _ (eval : Context → Text → List Text → ℤ → Program σ (Result Text EvalResult))
      (atomic : l.client.eval ≡ some eval) (s s1 : σ) (w w1 : Response)
      (answer : Result Text EvalResult)
      (evaluated : run conn
          (eval ctx incr_with_expire_script (full_key ∷ []) (seconds l.window))
          s
          w
        ≡ record { end = returned answer; state = s1; response = w1 }) where
    pub evaluates :
        run conn (check now l ctx key) s w
        ≡ run conn (after_count now l ctx full_key (atomic_count answer)) s1 w1
    unfolding check resume
    evaluates =
        rw (atomic, check)
          (run-bind_of_eq conn (eval ctx incr_with_expire_script (full_key ∷ []) (seconds l.window))
            _ s w evaluated)

    -- On a client with scripts: when the script returns a number, and the client then tells the
    -- key's time to live or fails to, `Check` returns that number as the count, allows the request
    -- exactly if it is at most the limit, and reports a number of remaining requests that is not
    -- negative.
    check_counts :
        (result : EvalResult) (count : ℤ) (s2 : σ) (w2 : Response) (ttl : Result Text ℤ)
        → answer ≡ ok result
        → count_of result ≡ some count
        → run conn (l.client.ttl ctx full_key) s1 w1
          ≡ record { end = returned ttl; state = s2; response = w2 }
        → (o : Outcome) × Reports count o
          × (run conn (check now l ctx key) s w
              ≡ record { end = returned o; state = s2; response = w2 })
    unfolding after_count
    check_counts result count s2 w2 ttl good number told =
        let (o, reports, ran) = calculated count s1 s2 w1 w2 ttl told in
        let counted : atomic_count answer ≡ some count = rw good number in
        (
          o,
          reports,
          evaluates ∙ ap (λ c. run conn (after_count now l ctx full_key c) s1 w1) counted ∙ ran,
        )
