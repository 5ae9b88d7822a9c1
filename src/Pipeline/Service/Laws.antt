-- ===== src/Pipeline/Service/Laws.antt =====
-- What the outer middlewares make of a request to a service.
pub mod Refusals
pub mod Containment
pub mod Denials
use txova_go_middleware.Base.{ℕ, ◌≡◌, ◌≢◌, ap, ◌∙◌, Option, none, List, [], Holds, Text, Text_eq}
use txova_go_middleware.Base.Int.{ℤ, ◌-ℤ◌}
use txova_go_middleware.Errors.{Core}
use txova_go_middleware.Errors.WriteJson.{Sends}
use txova_go_middleware.Http.Headers.{header_get}
use txova_go_middleware.Http.Program.{Request, Panic, Handler}
use txova_go_middleware.Http.Server.{Response, Connection, returned, panicked, run}
use txova_go_middleware.Http.Final.{SendsFinal}
use txova_go_middleware.Http.Logging.{Entry, Logger}
use txova_go_middleware.Chain.Laws.{chain-cons, chain-nil}
use txova_go_middleware.RequestId
use txova_go_middleware.RequestId.{Generator}
use txova_go_middleware.RequestId.Laws.{Receives, Receives-id, tagged, stamped, middleware_runs}
use txova_go_middleware.Recovery
use txova_go_middleware.Recovery.Laws.{HasStack, middleware_transparent, middleware_answers_panic}
use txova_go_middleware.RequestLog
use txova_go_middleware.RequestLog.Sizes.{taken}
use txova_go_middleware.RequestLog.Entries.{Describes}
use txova_go_middleware.RequestLog.Laws.{reported, middleware_logs_once}
use txova_go_middleware.RequestLog.Laws.Panics.{middleware-SendsFinal, middleware_panics}
use txova_go_middleware.Pipeline.Service.{service}

module _ (core : Core) (stack_trace : ℕ → Text) (to_lower : Text → Text) {σ : Type 0} (now : σ → ℤ)
    (generator : Generator σ) (id_opts : List (RequestId.Config σ → RequestId.Config σ))
    (panic_logger : Option (Logger σ)) (panic_opts : List (Recovery.Config → Recovery.Config))
    (logger : Logger σ) (log_opts : List (RequestLog.Config → RequestLog.Config))
    (next : Handler σ) where
  pub logged : Handler σ
  logged = RequestLog.middleware to_lower now logger log_opts next

  abbrev pub served : Handler σ
  served =
      service core stack_trace to_lower now generator id_opts panic_logger panic_opts logger
        log_opts next

  service_nested :
      served
      ≡ RequestId.middleware generator id_opts
          (Recovery.middleware core stack_trace panic_logger panic_opts logged)
  unfolding service logged
  service_nested =
      chain-cons _ _ next
      ∙ ap (RequestId.middleware generator id_opts) (
          chain-cons _ _ next
          ∙ ap (Recovery.middleware core stack_trace panic_logger panic_opts) (
              chain-cons _ [] next
              ∙ ap (RequestLog.middleware to_lower now logger log_opts) (chain-nil next)))

  module _ (r : Request) (conn : Connection) (s s' : σ) (w v : Response) where
    -- The ID of the request, and what the handler is given.
    abbrev pub request_id : Text
    request_id = header_get r.header (RequestId.configure generator id_opts).header_name

    abbrev pub given_request : Request
    given_request = tagged generator id_opts next r conn s w request_id

    abbrev pub given_response : Response
    given_response = stamped generator id_opts next r conn s w request_id

    module _ (fresh : w.status ≡ none) (given : request_id ≢ [])
        (final : SendsFinal (next given_request)) where
      pub service_runs :
          run conn (served r) s w
          ≡ run conn
              (Recovery.middleware core stack_trace panic_logger panic_opts logged given_request)
              s
              given_response
      service_runs = rw service_nested (
          middleware_runs generator id_opts
            (Recovery.middleware core stack_trace panic_logger panic_opts logged) r conn s w given)

      -- Behind request IDs, recovery and logging, on a response that has sent nothing, a request that
      -- has an ID, and whose path is logged: the handler is given the request with the ID in its
      -- context and the response with the ID in its header. If it sends final statuses only and
      -- returns, the client gets the handler's response, and the logger one entry. This says, field
      -- by field, what the request that the handler was given is, how long it took, how many bytes
      -- the connection took of the handler's writes, and the status that was sent, or 200 if none
      -- was.
      pub service_returns :
          ¬ Holds (RequestLog.configure log_opts).exclude_paths given_request.path
          → run conn (next given_request) s given_response
            ≡ record { end = returned tt; state = s'; response = v }
          → Receives
              (RequestId.configure generator id_opts)
              r
              given_request
              w
              given_response
              request_id
            × (e : Entry) × Describes to_lower
                (RequestLog.configure log_opts)
                given_request
                (now s' -ℤ now s)
                (reported v.status)
                (taken conn (next given_request) s given_response 0)
                e
            × (run conn (served r) s w
                ≡ record { end = returned tt; state = logger e s'; response = v })
      unfolding logged
      service_returns shown ran =
          let (e, describes, logs) =
            middleware_logs_once to_lower now logger log_opts next given_request conn s s'
              given_response v shown final fresh ran in
          (
            Receives-id generator id_opts next r conn s w request_id,
            e,
            describes,
            service_runs
                ∙ middleware_transparent core stack_trace panic_logger panic_opts logged
                    given_request
                    (middleware-SendsFinal to_lower now logger log_opts next given_request final)
                    conn s _ given_response v fresh logs,
          )

      -- Behind request IDs, recovery and logging, on a response that has sent nothing, for a request
      -- that has an ID: if the handler sends final statuses only and panics before it sent anything,
      -- and the configured stack size is not negative, then the service returns and has sent the
      -- status 500.
      pub service_panics :
          HasStack (Recovery.configure panic_opts)
          → (p : Panic)
          → run conn (next given_request) s given_response
            ≡ record { end = panicked p; state = s'; response = v }
          → v.status ≡ none
          → Sends 500 (run conn (served r) s w)
      unfolding logged
      service_panics has p ran idle = rw service_runs (
          middleware_answers_panic core stack_trace panic_logger panic_opts logged given_request
            (middleware-SendsFinal to_lower now logger log_opts next given_request final) conn s s'
            given_response v fresh has p
            (middleware_panics to_lower now logger log_opts next given_request final conn s s'
              given_response v p fresh ran)
            idle)
