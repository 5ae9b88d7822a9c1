-- ===== src/RateLimit/Laws/Limiting.antt =====
-- A rate limit on a route, over Redis.
use txova_go_middleware.Base.{
  ◌++◌, ℕ, ◌+◌, ◌-◌, ◌≡◌, ◌⊎◌, ◌≤◌, ◌<◌, ◌^◌, inl, inr, ◌∙◌, Bool, false, Option, none, leb,
  Bool-cases, Text, codes, arith,
}
use txova_go_middleware.Base.Int.{ℤ, pos, ◌≤ℤ◌}
use txova_go_middleware.Errors.{Core}
use txova_go_middleware.Http.Headers.{header_set}
use txova_go_middleware.Http.Program.{Request, Handler}
use txova_go_middleware.Http.Server.{Response, Connection, run}
use txova_go_middleware.Http.Refusal.{Answered}
use txova_go_middleware.RateLimit.{Limiter, second}
use txova_go_middleware.RateLimit.Middleware.{unix, skips, limit_rate}
use txova_go_middleware.RateLimit.Laws.Store.{Counters, Counted, check-Tells}
use txova_go_middleware.RateLimit.Laws.Serving.{limit_rate_decides}

module _ (core : Core) (itoa : ℤ → Text) {σ : Type 0} (now : σ → ℤ) (l : Limiter σ)
    (redis : Counters l.client) (limit : ℕ) (is_limit : l.limit ≡ pos limit)
    (small : limit < 2 ^ 63) (lasts : pos second ≤ℤ l.window) (conn : Connection)
    (key_func : Request → Text) (skip_func : Option (Request → Bool)) (next : Handler σ)
    (r : Request) (s : σ) (w : Response) where
  -- How many requests the key of this one has had in its window.
  abbrev pub earlier : ℕ
  earlier = redis.count s (l.key_prefix ++ codes ":" ++ key_func r)

  -- The response with the headers for a limit, what remains of it, and a time.
  abbrev pub announcing : ℤ → ℤ → Response
  announcing remaining reset_at = record w {
    header =
        header_set
          (header_set (header_set w.header (codes "X-RateLimit-Limit") (itoa (pos limit)))
            (codes "X-RateLimit-Remaining") (itoa remaining))
          (codes "X-RateLimit-Reset") (itoa (unix reset_at));
  }

  -- The middleware of a limiter whose limit is from 0 below 2^63 and whose window is one second at
  -- least, over a client that counts as Redis does, with scripts or without, for a request that is
  -- not skipped, whose key has a count that still fits an int64 with this request, on a response
  -- that has sent nothing: the request is counted, for its key only.
  -- Either with it the key's requests in the window are at most the limit, and the next handler
  -- runs on a response that announces the limit and what remains of it; or they are more, and the
  -- request is answered with the JSON error 429.
  pub limit_rate_limits :
      skips skip_func r ≡ false
      → w.status ≡ none
      → earlier + 1 < 2 ^ 63
      → (s' : σ) × Counted now l redis limit is_limit small lasts conn
          (l.key_prefix ++ codes ":" ++ key_func r)
          s
          s'
        × (((earlier + 1 ≤ limit)
              × (reset_at : ℤ) × (run conn
                    (limit_rate core itoa now l key_func skip_func next r)
                    s
                    w
                  ≡ run conn (next r) s' (announcing (pos (limit - (earlier + 1))) reset_at)))
            ⊎ ((limit < earlier + 1)
                × Answered 429
                    (run conn (limit_rate core itoa now l key_func skip_func next r) s w)))
  limit_rate_limits limited fresh room =
      let (o, s', ran, allowed, remaining, counted) =
        check-Tells now l redis limit is_limit small lasts conn r.context (key_func r) s w room in
      let (serves, refuses) =
        limit_rate_decides core itoa now l key_func skip_func next r limited conn s s' w w o ran in
      (
        s',
        counted,
        elim (Bool-cases (leb (earlier + 1) limit)) [
          | inl within ↦
              inl
                (ground arith, o.reset_at, rw (← is_limit, ← remaining) (serves (allowed ∙ within)))
          | inr over ↦ inr (ground arith, refuses (allowed ∙ over) fresh)
        ],
      )
