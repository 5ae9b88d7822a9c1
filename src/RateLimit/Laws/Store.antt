-- ===== src/RateLimit/Laws/Store.antt =====
-- What the limiter relies on of Redis, and one check of the limiter.
use txova_go_middleware.Base.{
  ℕ, ◌+◌, ◌≡◌, ◌<◌, ◌^◌, ◌∙◌, true, Option, none, some, List, [], ◌∷◌, ◌++◌, arith, if◌then◌else◌,
  ◌==◌, ℕ_eq, Text_eq, Bool-cases, Option-cases, inl, inr, Text, codes, Result, ok, leb, ◌-◌,
}
use txova_go_middleware.Base.Int.{ℤ, pos, negsuc, ◌≤ℤ◌, ltb_ℤ, ◌-ℤ◌}
use txova_go_middleware.Context.{Context}
use txova_go_middleware.Http.Program.{Program}
use txova_go_middleware.Http.Server.{Response, Connection, returned, run, resume}
use txova_go_middleware.Http.Refusal.{run-bind_of_eq}
use txova_go_middleware.RateLimit.{
  EvalResult, int64, RedisClient, Limiter, Outcome, second, seconds, incr_with_expire_script,
  wrap_int, calculate_result, after_count, after_incr, check,
}

-- The counters of Redis, as its commands are documented: INCR adds one to a counter, which starts
-- at 0, and fails at the end of int64; EXPIRE with a positive time, and TTL, leave the counters as
-- they are; a counter whose time is over is gone. The script is INCR and, at 1, EXPIRE.
pub record Counters {σ : Type 0} (client : RedisClient σ) : Type 0 where
  pub count : σ → Text → ℕ
  pub lapse : Text → σ → σ
  pub count-lapse :
      (key j : Text) (s : σ) → count (lapse key s) j ≡ (if key == j then 0 else count s j)
  pub run-incr :
      (conn : Connection) (ctx : Context) (key : Text) (s : σ) (w : Response)
      → count s key + 1 < 2 ^ 63
      → (s' : σ) × (run conn (client.incr ctx key) s w
          ≡ record { end = returned (ok (pos (count s key + 1))); state = s'; response = w })
        × ((j : Text) → count s' j ≡ (if key == j then count s j + 1 else count s j))
  pub run-expire :
      (conn : Connection) (ctx : Context) (key : Text) (d : ℤ) (s : σ) (w : Response)
      → ltb_ℤ (pos 0) d ≡ true
      → (s' : σ) × (e : Option Text) × (run conn (client.expire ctx key d) s w
          ≡ record { end = returned e; state = s'; response = w })
        × ((j : Text) → count s' j ≡ count s j)
  pub run-ttl :
      (conn : Connection) (ctx : Context) (key : Text) (s : σ) (w : Response)
      → (s' : σ) × (d : Result Text ℤ) × (run conn (client.ttl ctx key) s w
          ≡ record { end = returned d; state = s'; response = w })
        × ((j : Text) → count s' j ≡ count s j)
  pub run-eval :
      (eval : Context → Text → List Text → ℤ → Program σ (Result Text EvalResult))
      → client.eval ≡ some eval
      → (conn : Connection) (ctx : Context) (key : Text) (d : ℤ) (s : σ) (w : Response)
      → count s key + 1 < 2 ^ 63
      → ltb_ℤ (pos 0) d ≡ true
      → (s' : σ) × (run conn (eval ctx incr_with_expire_script (key ∷ []) d) s w ≡ record {
        end = returned (ok (int64 (pos (count s key + 1))));
        state = s';
        response = w;
      })
        × ((j : Text) → count s' j ≡ (if key == j then count s j + 1 else count s j))

-- The difference of a limit and a count does not wrap.
wrap_int_fits : (n m : ℕ) → n < 2 ^ 63 → m < 2 ^ 63 → wrap_int (pos n -ℤ pos m) ≡ pos n -ℤ pos m
unfolding wrap_int ◌-ℤ◌
wrap_int_fits n m h k = ground arith

left_of :
    (n m : ℕ)
    → n < 2 ^ 63
    → m < 2 ^ 63
    → (let left = wrap_int (pos n -ℤ pos m) in if ltb_ℤ left (pos 0) then pos 0 else left)
      ≡ pos (n - m)
unfolding ◌-ℤ◌
left_of n m h k = rw (wrap_int_fits n m h k) (ground arith)

whole_seconds : (d : ℤ) → pos second ≤ℤ d → ltb_ℤ (pos 0) (seconds d) ≡ true
whole_seconds (pos n) h = ground arith
whole_seconds (negsuc n) h = absurd (omega arith)

some_time : (d : ℤ) → pos second ≤ℤ d → ltb_ℤ (pos 0) d ≡ true
some_time (pos n) h = ground arith
some_time (negsuc n) h = absurd (omega arith)

module _ {σ : Type 0} (now : σ → ℤ) (l : Limiter σ) (redis : Counters l.client) (limit : ℕ)
    (is_limit : l.limit ≡ pos limit) (small : limit < 2 ^ 63) (lasts : pos second ≤ℤ l.window)
    (conn : Connection) where
  abbrev pub full_key : Text → Text
  full_key key = l.key_prefix ++ codes ":" ++ key

  -- From one state to the other, only the counter of the key has changed: by one.
  abbrev pub Counted : Text → σ → σ → Type 0
  Counted key s s' =
      (j : Text) → redis.count s' j ≡ (if key == j then redis.count s j + 1 else redis.count s j)

  -- A program tells that a count is over the limit or not, and what is left.
  abbrev pub Tells : Program σ Outcome → ℕ → Text → σ → σ → Response → Type 0
  Tells m count key s0 s w =
      (o : Outcome) × (s' : σ) × (run conn m s w
        ≡ record { end = returned o; state = s'; response = w })
      × (o.allowed ≡ leb count limit)
      × (o.remaining ≡ pos (limit - count))
      × Counted key s0 s'

  calculate_result-Tells :
      (ctx : Context) (key : Text) (count : ℕ) (s0 s : σ) (w : Response)
      → count < 2 ^ 63
      → Counted key s0 s
      → Tells (calculate_result now l ctx key (pos count)) count key s0 s w
  unfolding calculate_result run resume
  calculate_result-Tells ctx key count s0 s w fits counted =
      let (s1, d, ran, same) = redis.run-ttl conn ctx key s w in
      (
        _,
        s1,
        run-bind_of_eq conn (l.client.ttl ctx key) _ s w ran,
        rw is_limit (ground arith),
        rw is_limit (left_of limit count small fits),
        λ j. same j ∙ counted j,
      )

  -- The client has scripts.
  check-Tells_eval :
      (eval : Context → Text → List Text → ℤ → Program σ (Result Text EvalResult))
      → l.client.eval ≡ some eval
      → (ctx : Context) (key : Text) (s : σ) (w : Response)
      → redis.count s (full_key key) + 1 < 2 ^ 63
      → Tells (check now l ctx key) (redis.count s (full_key key) + 1) (full_key key) s s w
  unfolding check after_count resume
  check-Tells_eval eval atomic ctx key s w room =
      let (s1, ran, counted) =
        redis.run-eval eval atomic conn ctx (full_key key) (seconds l.window) s w room
          (whole_seconds l.window lasts) in
      let (o, s2, ran', allowed, remaining, counted') =
        calculate_result-Tells ctx (full_key key) (redis.count s (full_key key) + 1) s s1 w room
          counted in
      (
        o,
        s2,
        rw (atomic, check)
            (run-bind_of_eq conn
                (eval ctx incr_with_expire_script (full_key key ∷ []) (seconds l.window)) _ s w ran
              ∙ ran'),
        allowed,
        remaining,
        counted',
      )

  -- The client has none: it counts, and lets the counter expire if it is the first.
  after_incr-Tells :
      (ctx : Context) (key : Text) (count : ℕ) (s0 s : σ) (w : Response)
      → count < 2 ^ 63
      → Counted key s0 s
      → Tells (after_incr now l ctx key (ok (pos count))) count key s0 s w
  unfolding after_incr run resume
  after_incr-Tells ctx key count s0 s w fits counted = elim (Bool-cases (count == 1)) [
    | inl once ↦
        let (s1, e, ran, same) =
          redis.run-expire conn ctx key l.window s w (some_time l.window lasts) in
        let (o, s2, ran', allowed, remaining, counted') =
          calculate_result-Tells ctx key count s0 s1 w fits (λ j. same j ∙ counted j) in
        (
          o,
          s2,
          rw once (run-bind_of_eq conn (l.client.expire ctx key l.window) _ s w ran ∙ ran'),
          allowed,
          remaining,
          counted',
        )
    | inr again ↦
        let (o, s2, ran', allowed, remaining, counted') =
          calculate_result-Tells ctx key count s0 s w fits counted in
        (o, s2, rw again ran', allowed, remaining, counted')
  ]

  check-Tells_incr :
      l.client.eval ≡ none
      → (ctx : Context) (key : Text) (s : σ) (w : Response)
      → redis.count s (full_key key) + 1 < 2 ^ 63
      → Tells (check now l ctx key) (redis.count s (full_key key) + 1) (full_key key) s s w
  unfolding check resume
  check-Tells_incr plain ctx key s w room =
      let (s1, ran, counted) = redis.run-incr conn ctx (full_key key) s w room in
      let (o, s2, ran', allowed, remaining, counted') =
        after_incr-Tells ctx (full_key key) (redis.count s (full_key key) + 1) s s1 w room
          counted in
      (
        o,
        s2,
        rw (plain, check) (run-bind_of_eq conn (l.client.incr ctx (full_key key)) _ s w ran ∙ ran'),
        allowed,
        remaining,
        counted',
      )

  -- Either way, a check counts the request, and tells by the count.
  pub check-Tells :
      (ctx : Context) (key : Text) (s : σ) (w : Response)
      → redis.count s (full_key key) + 1 < 2 ^ 63
      → Tells (check now l ctx key) (redis.count s (full_key key) + 1) (full_key key) s s w
  check-Tells ctx key s w room = elim (Option-cases l.client.eval) [
    | inl plain ↦ check-Tells_incr plain ctx key s w room
    | inr (eval, atomic) ↦ check-Tells_eval eval atomic ctx key s w room
  ]
