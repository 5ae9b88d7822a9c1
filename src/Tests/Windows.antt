-- ===== src/Tests/Windows.antt =====
-- The rate limiter over a store of counters.
use txova_go_middleware.Base.{
  ◌≤◌, ◌<◌, ◌^◌, ◌⊎◌, if◌then◌else◌, ◌==◌, Text_eq, ◌+◌, ◌≡◌, refl, none, some, true, false,
  text_eq, List, [], ◌∷◌, map, Text, codes, Result, ok, arith,
}
use txova_go_middleware.Base.Int.{ℤ, pos, ◌≤ℤ◌}
use txova_go_middleware.Context.{Context, background}
use txova_go_middleware.Http.Program.{
  Program, ret, load, store, ◌>>=◌, ◌>>◌, send_status, send, Handler,
}
use txova_go_middleware.RateLimit.{EvalResult, int64, RedisClient, Limiter, incr_with_expire_script}
use txova_go_middleware.Http.Refusal.{Answered}
use txova_go_middleware.RateLimit.Middleware.{limit_rate}
use txova_go_middleware.RateLimit.Laws.Limiting.{announcing, limit_rate_limits}
use txova_go_middleware.RateLimit.Window.{
  Event, ask, lapse, Window, count_up, restart, Verdict, decisions,
}
use txova_go_middleware.RateLimit.Laws.Store.{Counters}
use txova_go_middleware.RateLimit.Laws.Refinement.{verdicts, verdicts_refine}
use txova_go_middleware.Http.Server.{new_response, Response, Connection, returned, run}
use txova_go_middleware.Tests.Samples.{core, conn, plain}

abbrev now : Window → ℤ
now s = pos 7

-- The key of a script.
abbrev key_of : List Text → Text
key_of [] = []
key_of (key ∷ keys) = key

abbrev scripted : Context → Text → List Text → ℤ → Program Window (Result Text EvalResult)
scripted ctx script keys d =
    load λ s. store (count_up s (key_of keys)) (ret (ok (int64 (pos (s (key_of keys) + 1)))))

abbrev client : RedisClient Window
client = record {
  incr = λ ctx key. load λ s. store (count_up s key) (ret (ok (pos (s key + 1))));
  expire = λ ctx key d. ret none;
  ttl = λ ctx key. ret (ok (pos 5000000000));
  eval = some scripted;
}

abbrev limiter : Limiter Window
limiter = record {
  client = client;
  limit = pos 2;
  window = pos 60000000000;
  key_prefix = codes "ratelimit";
}

incr_counts :
    (conn : Connection) (ctx : Context) (key : Text) (s : Window) (w : Response)
    → run conn (client.incr ctx key) s w
      ≡ record { end = returned (ok (pos (s key + 1))); state = count_up s key; response = w }
unfolding run
incr_counts c ctx key s w = refl

expire_keeps :
    (conn : Connection) (ctx : Context) (key : Text) (d : ℤ) (s : Window) (w : Response)
    → run conn (client.expire ctx key d) s w
      ≡ record { end = returned none; state = s; response = w }
unfolding run
expire_keeps c ctx key d s w = refl

ttl_keeps :
    (conn : Connection) (ctx : Context) (key : Text) (s : Window) (w : Response)
    → run conn (client.ttl ctx key) s w
      ≡ record { end = returned (ok (pos 5000000000)); state = s; response = w }
unfolding run
ttl_keeps c ctx key s w = refl

eval_counts :
    (eval : Context → Text → List Text → ℤ → Program Window (Result Text EvalResult))
    → client.eval ≡ some eval
    → (conn : Connection) (ctx : Context) (key : Text) (d : ℤ) (s : Window) (w : Response)
    → run conn (eval ctx incr_with_expire_script (key ∷ []) d) s w ≡ record {
      end = returned (ok (int64 (pos (s key + 1))));
      state = count_up s key;
      response = w;
    }
unfolding run
eval_counts eval same c ctx key d s w = let e : scripted ≡ eval = cc in rw (← e) refl

abbrev redis : Counters client
redis = record {
  count = λ s. s;
  lapse = λ key s. restart s key;
  count-lapse = λ key j s. refl;
  run-incr = λ c ctx key s w room. (count_up s key, incr_counts c ctx key s w, λ j. refl);
  run-expire = λ c ctx key d s w h. (s, none, expire_keeps c ctx key d s w, λ j. refl);
  run-ttl = λ c ctx key s w. (s, ok (pos 5000000000), ttl_keeps c ctx key s w, λ j. refl);
  run-eval = λ eval same c ctx key d s w room h.
      (count_up s key, eval_counts eval same c ctx key d s w, λ j. refl);
}

-- Three requests of one client, one of another, and a new window.
abbrev events : List Event
events =
    ask background (codes "ip:a")
    ∷ ask background (codes "ip:a")
    ∷ ask background (codes "ip:a")
    ∷ ask background (codes "ip:b")
    ∷ lapse (codes "ip:a")
    ∷ ask background (codes "ip:a")
    ∷ []

abbrev empty : Window
empty key = 0

verdicts_refine_example :
    verdicts now limiter redis conn events empty ≡ map some (decisions 2 empty events)
verdicts_refine_example =
    verdicts_refine now limiter redis conn 2 refl (omega arith) (omega arith) events empty empty
      (λ key. refl) (λ key. omega arith)

-- The third one is refused, and the new window starts anew.
decisions_run :
    map (λ (v : Verdict). v.allowed) (decisions 2 empty events)
    ≡ true ∷ true ∷ false ∷ true ∷ true ∷ []
unfolding decisions text_eq
decisions_run = refl

abbrev next : Handler Window
next r = do send_status 200; (n, failed) ← send (codes "ok"); ret tt

abbrev itoa : ℤ → Text
itoa n = codes "7"

small : 2 < 2 ^ 63
small = omega arith

lasts : pos 1000000000 ≤ℤ pos 60000000000
lasts = omega arith

-- The key of the request, `path:/rides`.
abbrev rides : Text
rides = codes "path:/rides"

abbrev serving : Handler Window
serving = limit_rate core itoa now limiter (λ r. rides) none next

limit_rate_limits_example :
    (s' : Window) × ((j : Text)
      → s' j ≡ (if codes "ratelimit:path:/rides" == j then empty j + 1 else empty j))
    × (((1 ≤ 2)
          × (reset_at : ℤ) × (run conn (serving plain) empty new_response
              ≡ run conn (next plain) s' (
                  announcing core itoa now limiter redis 2 refl small lasts conn
                    (λ r. rides)
                    none
                    next
                    plain
                    empty
                    new_response
                    (pos 1)
                    reset_at)))
        ⊎ ((2 < 1) × Answered 429 (run conn (serving plain) empty new_response)))
limit_rate_limits_example =
    limit_rate_limits core itoa now limiter redis 2 refl small lasts conn (λ r. rides) none next
      plain empty new_response refl refl (omega arith)
