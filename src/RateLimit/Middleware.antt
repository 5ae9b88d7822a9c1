-- ===== src/RateLimit/Middleware.antt =====
-- ratelimit/ratelimit.go: `Middleware`. `itoa` is how package strconv writes an integer.
use txova_go_middleware.Base.{
  ◌/◌, Bool, false, Option, none, some, List, if◌then◌else◌, Text, codes,
}
use txova_go_middleware.Base.Int.{ℤ, pos, negsuc, ◌-ℤ◌, ltb_ℤ}
use txova_go_middleware.Errors.{Core}
use txova_go_middleware.Errors.Reply.{encode, set_json_headers, status_text}
use txova_go_middleware.Http.Program.{
  Request, WriteError, Program, ret, ◌>>=◌, ◌>>◌, set, send_status, send, gets, Handler, Middleware,
}
use txova_go_middleware.Http.Logging.{apply_options}
use txova_go_middleware.RateLimit.{Config, Limiter, Outcome, check, key_by_ip, second, seconds}

-- `t.Unix()`
abbrev pub unix : ℤ → ℤ
unix (pos n) = pos (n / second)
unix (negsuc n) = negsuc (n / second)

-- `cfg.SkipFunc != nil && cfg.SkipFunc(r)`
abbrev pub skips : Option (Request → Bool) → Request → Bool
skips none r = false
skips (some f) r = f r

-- A nil key function is replaced by `KeyByIP`.
abbrev pub key_or_ip : Option (Request → Text) → Request → Text
key_or_ip none r = key_by_ip r
key_or_ip (some f) r = f r

module _ (core : Core) (itoa : ℤ → Text) {σ : Type 0} (now : σ → ℤ) where
  abbrev pub fallback : Option WriteError → Program σ (Unit {0})
  fallback none = ret tt
  fallback (some e) = do _ ← send (status_text 429); ret tt

  abbrev pub not_negative : ℤ → ℤ
  not_negative d = if ltb_ℤ d (pos 0) then pos 0 else d

  -- `writeRateLimitError`
  unfoldable pub write_rate_limit_error : ℤ → Program σ (Unit {0})
  unfolding encode set_json_headers
  write_rate_limit_error reset_at = do
    set_json_headers
    t ← gets now
    set (codes "Retry-After") (itoa (not_negative (seconds (reset_at -ℤ t))))
    let e = core.rate_limited (codes "rate limit exceeded")
    send_status (core.status e)
    failed ← encode (core.response_json e)
    fallback failed

  -- The three headers.
  unfoldable pub set_limit_headers : Limiter σ → Outcome → Program σ (Unit {0})
  set_limit_headers l o = do
    set (codes "X-RateLimit-Limit") (itoa l.limit)
    set (codes "X-RateLimit-Remaining") (itoa o.remaining)
    set (codes "X-RateLimit-Reset") (itoa (unix o.reset_at))

  unfoldable pub serve_outcome : Limiter σ → Handler σ → Request → Outcome → Program σ (Unit {0})
  unfolding set_limit_headers write_rate_limit_error
  serve_outcome l next r o = do
    set_limit_headers l o
    if o.allowed then next r else write_rate_limit_error o.reset_at

  -- The handler that the middleware returns.
  unfoldable pub limit_rate : Limiter σ → (Request → Text) → Option (Request → Bool) → Middleware σ
  unfolding check serve_outcome
  limit_rate l key_func skip_func next r =
      let limited = check now l r.context (key_func r) >>= serve_outcome l next r in
      if skips skip_func r then next r else limited

  -- `Middleware(limiter, opts...)`
  unfoldable pub rate_limit_middleware : Limiter σ → List (Config → Config) → Middleware σ
  unfolding apply_options key_by_ip
  rate_limit_middleware l opts =
      let cfg = apply_options opts (record {
        limit = pos 0;
        window = pos 0;
        burst_allowance = pos 0;
        key_func = some key_by_ip;
        skip_func = none;
        key_prefix = codes "";
      }) in
      limit_rate l (key_or_ip cfg.key_func) cfg.skip_func
