-- ===== src/RateLimit.antt =====
-- ratelimit/ratelimit.go: the limiter, a fixed window counter in Redis, and its keys. Times are
-- nanoseconds, and `int` has 64 bits. `Seconds()` is a float64: what it rounds above 2^23 seconds is
-- left out.
pub mod Middleware
pub mod Window
pub mod Laws
use txova_go_middleware.Base.{
  ℕ, suc, ◌+◌, ◌-◌, ◌/◌, ◌%◌, ◌^◌, Bool, true, false, not, ◌||◌, Option, none, some, List, [], ◌∷◌,
  ◌++◌, ltb, ◌==◌, ℕ_eq, if◌then◌else◌, Text, Text_eq, codes, Result, ok, err,
}
use txova_go_middleware.Base.Int.{ℤ, pos, negsuc, ◌+ℤ◌, ◌-ℤ◌, leb_ℤ, ltb_ℤ}
use txova_go_middleware.Context.{Context, user_id_from_context}
use txova_go_middleware.ClientIp.{get_client_ip}
use txova_go_middleware.Http.Program.{Request, Program, ret, load, ◌>>=◌, gets}
use txova_go_middleware.Http.Logging.{apply_options}

-- The value of a sum or a difference of two `int`s.
unfoldable pub wrap_int : ℤ → ℤ
wrap_int (pos n) = let m = n % 2 ^ 64 in if ltb m (2 ^ 63) then pos m else negsuc (2 ^ 64 - 1 - m)
wrap_int (negsuc n) =
    let m = n % 2 ^ 64 in if ltb m (2 ^ 63) then negsuc m else pos (2 ^ 64 - 1 - m)

abbrev pub second : ℕ
second = 1000000000

-- `int64(d.Seconds())`
abbrev pub seconds : ℤ → ℤ
seconds (pos n) = pos (n / second)
seconds (negsuc n) = pos 0 -ℤ pos ((n + 1) / second)

-- What a Lua script may return; a float64 is given by its integer part.
pub data EvalResult : Type 0 where
  int64 int float64 : ℤ → EvalResult
  other : Text → EvalResult

-- `RedisClient`; `eval` is there if the client is a `RedisClientWithEval`. Errors are their texts.
pub record RedisClient (σ : Type 0) : Type 0 where
  pub incr : Context → Text → Program σ (Result Text ℤ)
  pub expire : Context → Text → ℤ → Program σ (Option Text)
  pub ttl : Context → Text → Program σ (Result Text ℤ)
  pub eval :
      Option (Context → (script : Text) (keys : List Text) → ℤ → Program σ (Result Text EvalResult))

pub record Config : Type 0 where
  pub limit : ℤ
  pub window : ℤ
  pub burst_allowance : ℤ
  pub key_func : Option (Request → Text)
  pub skip_func : Option (Request → Bool)
  pub key_prefix : Text

pub with_limit : ℤ → Config → Config
with_limit limit c = record c { limit = limit }

pub with_window : ℤ → Config → Config
with_window window c = record c { window = window }

pub with_burst_allowance : ℤ → Config → Config
with_burst_allowance burst c = record c { burst_allowance = burst }

pub with_key_func : Option (Request → Text) → Config → Config
with_key_func f c = record c { key_func = f }

pub with_skip_func : Option (Request → Bool) → Config → Config
with_skip_func f c = record c { skip_func = f }

pub with_key_prefix : Text → Config → Config
with_key_prefix prefix c = record c { key_prefix = prefix }

pub record Limiter (σ : Type 0) : Type 0 where
  pub client : RedisClient σ
  pub limit : ℤ
  pub window : ℤ
  pub key_prefix : Text

-- `NewLimiter(client, opts...)`
unfoldable pub new_limiter : {σ : Type 0} → RedisClient σ → List (Config → Config) → Limiter σ
unfolding apply_options wrap_int
new_limiter client opts =
    let cfg = apply_options opts (record {
      limit = pos 100;
      window = pos 60000000000;
      burst_allowance = pos 0;
      key_func = none;
      skip_func = none;
      key_prefix = codes "ratelimit";
    }) in
    record {
      client = client;
      limit = wrap_int (cfg.limit +ℤ cfg.burst_allowance);
      window = cfg.window;
      key_prefix = cfg.key_prefix;
    }

abbrev newline : ℕ
newline = 10

-- `incrWithExpireScript`
abbrev pub incr_with_expire_script : Text
incr_with_expire_script =
    newline ∷ codes "local count = redis.call('INCR', KEYS[1])"
    ++ newline ∷ codes "if count == 1 then"
    ++ newline ∷ codes "    redis.call('EXPIRE', KEYS[1], ARGV[1])"
    ++ newline ∷ codes "end"
    ++ newline ∷ codes "return count"
    ++ newline ∷ []

-- The results of `Check`.
pub record Outcome : Type 0 where
  pub count : ℤ
  pub remaining : ℤ
  pub reset_at : ℤ
  pub allowed : Bool

abbrev is_one : ℤ → Bool
is_one (pos n) = n == 1
is_one (negsuc n) = false

abbrev ttl_or : ℤ → Result Text ℤ → ℤ
ttl_or window (ok d) = if leb_ℤ d (pos 0) then window else d
ttl_or window (err e) = window

abbrev pub count_of : EvalResult → Option ℤ
count_of (int64 v) = some v
count_of (int v) = some v
count_of (float64 v) = some v
count_of (other name) = none

-- The results of `checkAtomic`; `none` for an error.
abbrev pub atomic_count : Result Text EvalResult → Option ℤ
atomic_count (err e) = none
atomic_count (ok result) = count_of result

module _ {σ : Type 0} (now : σ → ℤ) where
  -- `calculateResult`
  unfoldable pub calculate_result : Limiter σ → Context → Text → ℤ → Program σ Outcome
  unfolding wrap_int
  calculate_result l ctx full_key count = do
    d ← l.client.ttl ctx full_key
    t ← gets now
    let left = wrap_int (l.limit -ℤ count)
    ret (record {
      count = count;
      remaining = if ltb_ℤ left (pos 0) then pos 0 else left;
      reset_at = t +ℤ ttl_or l.window d;
      allowed = leb_ℤ count l.limit;
    })

  -- The results on an error: the request is allowed.
  unfoldable pub allow : Limiter σ → Program σ Outcome
  allow l = gets (λ s. record {
    count = pos 0;
    remaining = l.limit;
    reset_at = now s +ℤ l.window;
    allowed = true;
  })

  -- What follows `checkAtomic`.
  unfoldable pub after_count : Limiter σ → Context → Text → Option ℤ → Program σ Outcome
  unfolding calculate_result allow
  after_count l ctx full_key none = allow l
  after_count l ctx full_key (some count) = calculate_result l ctx full_key count

  -- `Expire` on the first request; its error is ignored.
  abbrev expire_first : Limiter σ → Context → Text → ℤ → Program σ (Option Text)
  expire_first l ctx full_key count =
      if is_one count then l.client.expire ctx full_key l.window else ret none

  after_incr : Limiter σ → Context → Text → Result Text ℤ → Program σ Outcome
  unfolding calculate_result allow
  after_incr l ctx full_key (err e) = allow l
  after_incr l ctx full_key (ok count) = do
    ignored ← expire_first l ctx full_key count
    calculate_result l ctx full_key count

  -- `Check(ctx, key)`
  unfoldable pub check : Limiter σ → Context → Text → Program σ Outcome
  unfolding after_count after_incr
  check l ctx key =
      let full_key = l.key_prefix ++ codes ":" ++ key in
      elim l.client.eval [
        | some eval ↦
            (eval ctx incr_with_expire_script (full_key ∷ []) (seconds l.window) >>= λ result.
            after_count l ctx full_key (atomic_count result))
        | none ↦ (l.client.incr ctx full_key >>= after_incr l ctx full_key)
      ]

-- `KeyByIP`
unfoldable pub key_by_ip : Request → Text
key_by_ip r = codes "ip:" ++ get_client_ip r

-- `KeyByUser`
unfoldable pub key_by_user : Request → Text
key_by_user r =
    let (user_id, found) = user_id_from_context (some r.context) in
    if not found || user_id == [] then codes "ip:" ++ get_client_ip r else codes "user:" ++ user_id

-- `KeyByEndpoint`
unfoldable pub key_by_endpoint : Request → Text
key_by_endpoint r = codes "path:" ++ r.path

-- `KeyByIPAndEndpoint`
unfoldable pub key_by_ip_and_endpoint : Request → Text
key_by_ip_and_endpoint r = codes "ip:" ++ get_client_ip r ++ codes ":path:" ++ r.path

-- `KeyByUserAndEndpoint`
unfoldable pub key_by_user_and_endpoint : Request → Text
key_by_user_and_endpoint r =
    let (user_id, found) = user_id_from_context (some r.context) in
    if not found || user_id == []
    then codes "ip:" ++ get_client_ip r ++ codes ":path:" ++ r.path
    else codes "user:" ++ user_id ++ codes ":path:" ++ r.path
