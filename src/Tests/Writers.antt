-- ===== src/Tests/Writers.antt =====
-- Maintenance mode, and recovery.
use txova_go_middleware.Base.{
  ℕ, ◌≡◌, ◌≢◌, inl, inr, refl, Bool, true, none, [], ◌∷◌, Text, Text_eq, text_eq, contains,
  contains_iff, codes, Result, ok, err,
}
use txova_go_middleware.ClientIp.{get_client_ip}
use txova_go_middleware.Http.Program.{value, ret, throw, ◌>>◌, Handler}
use txova_go_middleware.Http.Server.{returned, run, new_response}
use txova_go_middleware.Http.Final.{SendsFinal}
use txova_go_middleware.Maintenance.{Reply, FlagStore, configure, check}
use txova_go_middleware.Maintenance.Laws.{Bypasses, check_passes}
use txova_go_middleware.Recovery.{middleware}
use txova_go_middleware.Recovery.Laws.{HasStack}
use txova_go_middleware.Recovery.Laws.Containment.{Recovered, middleware_contains}
use txova_go_middleware.Tests.Samples.{core, conn, plain, serve}

abbrev marshal : Reply Text → Result Text Text
marshal reply = ok reply.message

-- A store that says `answer`, has no message, and fails to tell the end.
abbrev flags : Result Text Bool → FlagStore Text ℕ
flags answer = record {
  is_enabled = λ ctx. ret answer;
  get_message = λ ctx. ret (ok []);
  get_end_time = λ ctx. ret (err (codes "timeout"));
}

plain_blockable : ¬ Bypasses (configure []) plain
unfolding configure text_eq contains
plain_blockable (inl h) =
    let e =
      (contains_iff (codes "/health" ∷ codes "/ready" ∷ (configure []).bypass_paths) plain.path).1
        h in
    cc
plain_blockable (inr h) =
    let e = (contains_iff (configure []).bypass_ips (get_client_ip plain)).1 h in cc

store_says :
    (answer : Result Text Bool)
    → run conn ((flags answer).is_enabled plain.context) 0 new_response
      ≡ record { end = returned answer; state = 0; response = new_response }
unfolding run
store_says answer = refl

down-ne-on : ◌≢◌ {A = Result Text Bool} (err (codes "down")) (ok true)
down-ne-on h = cc

check_passes_example :
    run conn
      (check core marshal (configure []) (flags (err (codes "down"))) serve plain)
      0
      new_response
    ≡ run conn (serve plain) 0 new_response
check_passes_example =
    check_passes core marshal (configure []) (flags (err (codes "down"))) plain serve
      plain_blockable conn 0 new_response 0 new_response (err (codes "down")) down-ne-on
      (store_says (err (codes "down")))

abbrev stack_trace : ℕ → Text
stack_trace n = codes "goroutine 1"

abbrev panics_late : Handler ℕ
panics_late r = serve r >> throw (value (codes "boom"))

default_stack : HasStack (txova_go_middleware.Recovery.configure [])
unfolding txova_go_middleware.Recovery.configure
default_stack = (4096, refl)

late-SendsFinal : SendsFinal (panics_late plain)
unfolding SendsFinal
late-SendsFinal = ((refl, refl), λ n e. tt)

middleware_contains_example :
    Recovered
      (run conn (panics_late plain) 0 new_response)
      (run conn (middleware core stack_trace none [] panics_late plain) 0 new_response)
middleware_contains_example =
    middleware_contains core stack_trace none [] panics_late plain conn 0 new_response
      late-SendsFinal refl default_stack
