-- ===== src/RateLimit/Laws/Failing.antt =====
-- A rate limit on a route, when Redis fails.
use txova_go_middleware.Base.{
  ◌≡◌, ◌⊎◌, inl, inr, refl, ap, ◌∙◌, Bool, true, false, Option, none, some, List, [], ◌∷◌, ◌++◌,
  Text, codes, Result, ok, err,
}
use txova_go_middleware.Base.Int.{ℤ, pos, ◌+ℤ◌}
use txova_go_middleware.Context.{Context}
use txova_go_middleware.Errors.{Core}
use txova_go_middleware.Http.Headers.{header_set}
use txova_go_middleware.Http.Program.{Request, Program, Handler}
use txova_go_middleware.Http.Server.{Response, Connection, returned, run, resume}
use txova_go_middleware.Http.Refusal.{run-bind_of_eq}
use txova_go_middleware.RateLimit.{
  EvalResult, other, Limiter, Outcome, seconds, incr_with_expire_script, allow, after_count,
  after_incr, check, atomic_count,
}
use txova_go_middleware.RateLimit.Middleware.{unix, skips, limit_rate}
use txova_go_middleware.RateLimit.Laws.{evaluates}
use txova_go_middleware.RateLimit.Laws.Serving.{limit_rate_decides}

-- The script failed, or returned a value that is no number.
abbrev pub IsFailure : Result Text EvalResult → Type 0
IsFailure answer = ((e : Text) × (answer ≡ err e)) ⊎ ((name : Text) × (answer ≡ ok (other name)))

module _ {σ : Type 0} (l : Limiter σ) (ctx : Context) (key : Text) (conn : Connection) (s s' : σ)
    (w w' : Response) where
  -- The client does not tell a count for the key: the script fails, or, on a client without
  -- scripts, the increment does.
  abbrev pub Uncounted : Type 0
  Uncounted =
      let full_key = l.key_prefix ++ codes ":" ++ key in
      ((eval : Context → Text → List Text → ℤ → Program σ (Result Text EvalResult)) × (l.client.eval
          ≡ some eval)
        × (answer : Result Text EvalResult) × IsFailure answer
        × (run conn (eval ctx incr_with_expire_script (full_key ∷ []) (seconds l.window)) s w
            ≡ record { end = returned answer; state = s'; response = w' }))
      ⊎ ((l.client.eval ≡ none)
          × (e : Text) × (run conn (l.client.incr ctx full_key) s w
              ≡ record { end = returned (err e); state = s'; response = w' }))

  module _ (now : σ → ℤ) where
    -- The outcome that lets the request through.
    abbrev let_through : Outcome
    let_through = record {
      count = pos 0;
      remaining = l.limit;
      reset_at = now s' +ℤ l.window;
      allowed = true;
    }

    IsFailure-uncounted :
        (answer : Result Text EvalResult) → IsFailure answer → atomic_count answer ≡ none
    IsFailure-uncounted answer (inl (e, failed)) = rw failed refl
    IsFailure-uncounted answer (inr (name, strange)) = rw strange refl

    check_uncounted :
        Uncounted
        → run conn (check now l ctx key) s w
          ≡ record { end = returned let_through; state = s'; response = w' }
    unfolding check after_count after_incr allow run resume
    check_uncounted (inl (eval, atomic, answer, fails, ran)) =
        evaluates now l ctx key conn eval atomic s s' w w' answer ran
        ∙ ap (λ c. run conn (after_count now l ctx (l.key_prefix ++ codes ":" ++ key) c) s' w')
            (IsFailure-uncounted answer fails)
    check_uncounted (inr (plain, e, ran)) =
        rw (plain, check)
          (run-bind_of_eq conn (l.client.incr ctx (l.key_prefix ++ codes ":" ++ key)) _ s w ran)

module _ (core : Core) (itoa : ℤ → Text) {σ : Type 0} (now : σ → ℤ) (l : Limiter σ)
    (key_func : Request → Text) (skip_func : Option (Request → Bool)) (next : Handler σ)
    (r : Request) (conn : Connection) (s s' : σ) (w w' : Response) where
  -- For a request that is not skipped, when the client does not tell a count for its key, since the
  -- script fails or returns what is no number, or, on a client without scripts, the increment fails:
  -- nothing else is asked of the client, and the next handler runs, on a response that announces the
  -- limit, all of it as what remains, and the end of a window that begins now.
  pub limit_rate_fails_open :
      skips skip_func r ≡ false
      → Uncounted l r.context (key_func r) conn s s' w w'
      → run conn (limit_rate core itoa now l key_func skip_func next r) s w
        ≡ run conn (next r) s' (record w' {
          header =
              header_set
                (header_set
                  (header_set w'.header (codes "X-RateLimit-Limit") (itoa l.limit))
                  (codes "X-RateLimit-Remaining")
                  (itoa l.limit))
                (codes "X-RateLimit-Reset")
                (itoa (unix (now s' +ℤ l.window)));
        })
  limit_rate_fails_open limited failed =
      (limit_rate_decides core itoa now l key_func skip_func next r limited conn s s' w w' _
          (check_uncounted l r.context (key_func r) conn s s' w w' now failed)).0
        refl
