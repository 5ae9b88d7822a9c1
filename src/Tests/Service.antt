-- ===== src/Tests/Service.antt =====
-- A service behind request IDs, recovery and logging, the logger's wrapper, and CORS.
use txova_go_middleware.Base.{
  ℕ, ◌+◌, ◌≡◌, ◌≢◌, refl, none, some, [], ◌∷◌, ◌++◌, Holds, Text, Text_eq, text_eq, codes,
  ne_of_text_eq, contains, contains_iff,
}
use txova_go_middleware.Base.Int.{ℤ, pos, ◌-ℤ◌}
use txova_go_middleware.Context.{background}
use txova_go_middleware.Http.Headers.{header_get, canonical}
use txova_go_middleware.Http.Program.{Request, value, throw, Handler, load, store, ret}
use txova_go_middleware.Http.Server.{
  Response, returned, panicked, run, new_response, put_status, put_bytes, delivered,
}
use txova_go_middleware.Http.Final.{SendsFinal}
use txova_go_middleware.Http.Logging.{Entry, Logger}
use txova_go_middleware.RequestId
use txova_go_middleware.RequestId.{Generator}
use txova_go_middleware.RequestId.Laws.{Receives}
use txova_go_middleware.Recovery
use txova_go_middleware.Recovery.Laws.{HasStack}
use txova_go_middleware.RequestLog
use txova_go_middleware.RequestLog.{ResponseWriter, new_writer, note_status, recorded, entry_of}
use txova_go_middleware.RequestLog.Sizes.{taken}
use txova_go_middleware.RequestLog.Entries.{Describes}
use txova_go_middleware.RequestLog.Laws.Panics.{middleware_panics}
use txova_go_middleware.Pipeline.Service.Laws.{
  served, request_id, given_request, given_response, service_returns,
}
use txova_go_middleware.Pipeline.Service.Laws.Containment.{Contained, service_contains}
use txova_go_middleware.Tests.Samples.{core, conn, get, serve}

abbrev stack_trace : ℕ → Text
stack_trace n = codes "goroutine 1"

abbrev to_lower : Text → Text
to_lower s = s

abbrev now : ℕ → ℤ
now n = pos 0

abbrev counting : Logger ℕ
counting entry n = n + 1

abbrev counter : Generator ℕ
counter = load (λ n. store (n + 1) (ret (codes "id" ++ n ∷ [])))

abbrev tagged_request : Request
tagged_request = get ((codes "X-Request-Id", codes "abc" ∷ []) ∷ []) background

abbrev panics : Handler ℕ
panics r = throw (value (codes "boom"))

id_given :
    request_id core stack_trace to_lower now counter [] none [] counting [] serve tagged_request
      conn 0 0 new_response new_response
    ≢ []
unfolding header_get canonical text_eq RequestId.configure
id_given = ne_of_text_eq (codes "abc") [] refl

-- The request and the response that a handler is given.
abbrev received : Handler ℕ → Request
received next =
    given_request core stack_trace to_lower now counter [] none [] counting [] next tagged_request
      conn 0 0 new_response new_response

abbrev prepared : Handler ℕ → Response
prepared next =
    given_response core stack_trace to_lower now counter [] none [] counting [] next tagged_request
      conn 0 0 new_response new_response

abbrev answered : Response
answered = record {
  header = (prepared serve).header;
  status = some 200;
  sent = (prepared serve).header;
  informational = [];
  body = codes "ok";
}

path_logged : ¬ Holds (RequestLog.configure []).exclude_paths (received serve).path
unfolding RequestLog.configure contains text_eq
path_logged h =
    let e = (contains_iff (RequestLog.configure []).exclude_paths (received serve).path).1 h in cc

serve-SendsFinal : SendsFinal (serve (received serve))
unfolding SendsFinal
serve-SendsFinal = ((refl, refl), λ n e. tt)

panics-SendsFinal : SendsFinal (panics (received panics))
unfolding SendsFinal
panics-SendsFinal = tt

serve_runs :
    run conn (serve (received serve)) 0 (prepared serve)
    ≡ record { end = returned tt; state = 0; response = answered }
unfolding run put_status put_bytes delivered
serve_runs = refl

run-panics :
    (w : Response)
    → run conn (panics (received panics)) 0 w
      ≡ record { end = panicked (value (codes "boom")); state = 0; response = w }
unfolding run
run-panics w = refl

default_stack : HasStack (Recovery.configure [])
unfolding Recovery.configure
default_stack = (4096, refl)

service_returns_example :
    Receives
      (RequestId.configure counter [])
      tagged_request
      (received serve)
      new_response
      (prepared serve)
      (request_id core stack_trace to_lower now counter [] none [] counting [] serve tagged_request
        conn 0 0 new_response answered)
    × (e : Entry) × Describes to_lower
        (RequestLog.configure [])
        (received serve)
        (pos 0 -ℤ pos 0)
        200
        2
        e
    × (run conn
          (served core stack_trace to_lower now counter [] none [] counting [] serve tagged_request)
          0
          new_response
        ≡ record { end = returned tt; state = counting e 0; response = answered })
unfolding taken put_status put_bytes delivered
service_returns_example =
    service_returns core stack_trace to_lower now counter [] none [] counting [] serve
      tagged_request conn 0 0 new_response answered refl id_given serve-SendsFinal path_logged
      serve_runs

service_contains_example : Contained (run conn (panics (received panics)) 0 (prepared panics)) (
    run conn
      (served core stack_trace to_lower now counter [] none [] counting [] panics tagged_request)
      0
      new_response)
service_contains_example =
    service_contains core stack_trace to_lower now counter [] none [] counting [] panics
      tagged_request conn 0 new_response refl id_given panics-SendsFinal default_stack

middleware_panics_example :
    run conn
      (RequestLog.middleware to_lower now counting [] panics (received panics))
      0
      new_response
    ≡ record { end = panicked (value (codes "boom")); state = 0; response = new_response }
middleware_panics_example =
    middleware_panics to_lower now counting [] panics (received panics) panics-SendsFinal conn 0 0
      new_response new_response (value (codes "boom")) refl (run-panics new_response)
