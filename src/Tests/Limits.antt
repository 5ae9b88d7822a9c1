-- ===== src/Tests/Limits.antt =====
-- The rate limiter at concrete clients.
use txova_go_middleware.Base.{
  ◌≡◌, ◌↔◌, inl, refl, none, some, [], ◌∷◌, Text, codes, Result, ok, err,
}
use txova_go_middleware.Base.Int.{◌+ℤ◌, ℤ, pos, ◌+ℤ◌}
use txova_go_middleware.Context.{background, with_value, key_user_id, string}
use txova_go_middleware.Http.Program.{Request, Handler, ret}
use txova_go_middleware.Http.Server.{new_response, run}
use txova_go_middleware.RateLimit.{
  EvalResult, int64, RedisClient, Limiter, new_limiter, with_window, with_limit,
  with_burst_allowance, key_by_user,
}
use txova_go_middleware.RateLimit.Laws.Failing.{limit_rate_fails_open}
use txova_go_middleware.RateLimit.Middleware.{unix, limit_rate}
use txova_go_middleware.Http.Headers.{header_set}
use txova_go_middleware.RateLimit.Laws.Keys.{requester, key_by_user_iff}
use txova_go_middleware.RateLimit.Laws.Limits.{IsInt, new_limiter_limit}
use txova_go_middleware.Tests.Samples.{core, get, conn, plain}

-- A client whose script gives one answer, and whose state is the time.
abbrev client : Result Text EvalResult → RedisClient ℤ
client answer = record {
  incr = λ ctx key. ret (ok (pos 1));
  expire = λ ctx key d. ret none;
  ttl = λ ctx key. ret (ok (pos 5000000000));
  eval = some (λ ctx script keys d. ret answer);
}

abbrev three_a_minute : Result Text EvalResult → Limiter ℤ
three_a_minute answer = record {
  client = client answer;
  limit = pos 3;
  window = pos 60000000000;
  key_prefix = codes "ratelimit";
}

abbrev now : ℤ → ℤ
now t = t

-- Every number is written as "1".
abbrev itoa : ℤ → Text
itoa n = codes "1"

abbrev served : Handler ℤ
served r = ret tt

abbrev fourth : Result Text EvalResult
fourth = ok (int64 (pos 4))

limit_rate_fails_open_example :
    run conn
      (limit_rate core itoa now
        (three_a_minute (err (codes "down")))
        (λ r. codes "ip:10.0.0.1")
        none
        served
        plain)
      (pos 7)
      new_response
    ≡ run conn (served plain) (pos 7) (record new_response {
      header =
          header_set
            (header_set
              (header_set [] (codes "X-RateLimit-Limit") (itoa (pos 3)))
              (codes "X-RateLimit-Remaining")
              (itoa (pos 3)))
            (codes "X-RateLimit-Reset")
            (itoa (unix (pos 7 +ℤ pos 60000000000)));
    })
unfolding run
limit_rate_fails_open_example =
    limit_rate_fails_open core itoa now (three_a_minute (err (codes "down")))
      (λ r. codes "ip:10.0.0.1") none served plain conn (pos 7) (pos 7) new_response new_response
      refl
      (inl (
        λ ctx script keys d. ret (err (codes "down")),
        refl,
        err (codes "down"),
        inl (codes "down", refl),
        refl,
      ))

new_limiter_limit_example :
    let l =
      new_limiter (client fourth) (
        with_window (pos 1000000000) ∷ with_limit (pos 100) ∷ with_burst_allowance (pos 20) ∷ []) in
    IsInt l.limit × ((l.limit ≡ pos 100 +ℤ pos 20) ↔ IsInt (pos 100 +ℤ pos 20))
new_limiter_limit_example =
    new_limiter_limit (client fourth) (with_window (pos 1000000000) ∷ []) (pos 100) (pos 20)

-- The request of a user.
abbrev bound : Request
bound = get [] (with_value background key_user_id (string (codes "u1")))

key_by_user_iff_example :
    (key_by_user plain ≡ key_by_user bound) ↔ (requester plain ≡ requester bound)
key_by_user_iff_example = key_by_user_iff plain bound
