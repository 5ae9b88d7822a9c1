-- ===== src/Pipeline/Service/Laws/Containment.antt =====
-- A service around any handler, however that ends.
use txova_go_middleware.Base.{
  ℕ, ◌≡◌, ◌≢◌, ◌⊎◌, inl, inr, refl, ap, sym, ◌∙◌, Option, none, some, List, [], Text, Text_eq,
  contains, contains_iff, Bool-cases, Holds,
}
use txova_go_middleware.Base.Int.{ℤ}
use txova_go_middleware.Errors.{Core}
use txova_go_middleware.Http.Program.{Request, Panic, Handler}
use txova_go_middleware.Http.Server.{Response, Connection, returned, panicked, Run, run}
use txova_go_middleware.Http.Final.{SendsFinal}
use txova_go_middleware.Http.Logging.{Logger}
use txova_go_middleware.RequestId
use txova_go_middleware.RequestId.{Generator}
use txova_go_middleware.Recovery
use txova_go_middleware.Recovery.Laws.{HasStack}
use txova_go_middleware.Recovery.Laws.Containment.{End-cases, run_ended, middleware_contains}
use txova_go_middleware.RequestLog
use txova_go_middleware.RequestLog.Laws.{middleware_excluded, middleware_logs_once}
use txova_go_middleware.RequestLog.Laws.Panics.{middleware-SendsFinal, middleware_panics}
use txova_go_middleware.Pipeline.Service.Laws.{
  logged, served, request_id, given_request, given_response, service_runs,
}

-- What the client sees of a run in a service, by how the run of the handler alone ends.
abbrev pub Contained : {σ : Type 0} → Run σ (Unit {0}) → Run σ (Unit {0}) → Type 0
Contained plain ran =
    (ran.end ≡ returned tt)
    × (((plain.end ≡ returned tt) × (ran.response ≡ plain.response))
        ⊎ ((p : Panic) × (plain.end ≡ panicked p)
            × (plain.response.status ≡ none)
            × (ran.response.status ≡ some 500))
        ⊎ ((p : Panic) × (plain.end ≡ panicked p)
            × (status : ℕ) × (plain.response.status ≡ some status)
            × (ran.response ≡ plain.response)))

module _ (to_lower : Text → Text) {σ : Type 0} (now : σ → ℤ) (logger : Logger σ)
    (log_opts : List (RequestLog.Config → RequestLog.Config)) (next : Handler σ) (r : Request)
    (conn : Connection) (s : σ) (w : Response) where
  -- The logger changes neither how the handler ends nor the response.
  logging_transparent :
      SendsFinal (next r)
      → w.status ≡ none
      → ((run conn (RequestLog.middleware to_lower now logger log_opts next r) s w).end
          ≡ (run conn (next r) s w).end)
        × ((run conn (RequestLog.middleware to_lower now logger log_opts next r) s w).response
            ≡ (run conn (next r) s w).response)
  logging_transparent final fresh =
      let plain = run conn (next r) s w in
      elim (End-cases plain.end) [
        | inr (p, ends) ↦
            let panics =
              middleware_panics to_lower now logger log_opts next r final conn s plain.state w
                plain.response p fresh (run_ended plain (panicked p) ends) in
            rw panics (sym ends, refl)
        | inl ends ↦
            elim (Bool-cases (contains (RequestLog.configure log_opts).exclude_paths r.path)) [
              | inl e ↦
                  rw
                    (middleware_excluded to_lower now logger log_opts next r conn s s w w
                      ((contains_iff (RequestLog.configure log_opts).exclude_paths r.path).0 e))
                    (refl, refl)
              | inr e ↦
                  let shown : ¬ Holds (RequestLog.configure log_opts).exclude_paths r.path = λ held.
                    cc (
                      (contains_iff (RequestLog.configure log_opts).exclude_paths r.path).1 held) in
                  let (e, describes, logs) =
                    middleware_logs_once to_lower now logger log_opts next r conn s plain.state w
                      plain.response shown final fresh (run_ended plain (returned tt) ends) in
                  rw logs (sym ends, refl)
            ]
      ]

module _ (core : Core) (stack_trace : ℕ → Text) (to_lower : Text → Text) {σ : Type 0} (now : σ → ℤ)
    (generator : Generator σ) (id_opts : List (RequestId.Config σ → RequestId.Config σ))
    (panic_logger : Option (Logger σ)) (panic_opts : List (Recovery.Config → Recovery.Config))
    (logger : Logger σ) (log_opts : List (RequestLog.Config → RequestLog.Config)) (next : Handler σ)
    (r : Request) (conn : Connection) (s : σ) (w : Response) where
  abbrev pub handler_request : Request
  handler_request =
      given_request core stack_trace to_lower now generator id_opts panic_logger panic_opts logger
        log_opts next r conn s s w w

  abbrev pub handler_response : Response
  handler_response =
      given_response core stack_trace to_lower now generator id_opts panic_logger panic_opts logger
        log_opts next r conn s s w w

  -- Behind request IDs, recovery and logging, for a request that has an ID, on a response that has
  -- sent nothing, around a handler that sends final statuses only, and if the configured stack size
  -- is not negative: the service returns. If the handler, on what it is given, returns, the client
  -- gets its response; if it panics before it has sent anything, the client gets the status 500; and
  -- if it panics after, the response stays as the handler left it.
  pub service_contains :
      w.status ≡ none
      → request_id core stack_trace to_lower now generator id_opts panic_logger panic_opts logger
          log_opts next r conn s s w w
        ≢ []
      → SendsFinal (next handler_request)
      → HasStack (Recovery.configure panic_opts)
      → Contained (run conn (next handler_request) s handler_response) (
          run conn
            (served core stack_trace to_lower now generator id_opts panic_logger panic_opts logger
              log_opts next r)
            s
            w)
  unfolding logged
  service_contains fresh given final has =
      let runs =
        service_runs core stack_trace to_lower now generator id_opts panic_logger panic_opts logger
          log_opts next r conn s s w w fresh given final in
      let (ends, response) =
        logging_transparent to_lower now logger log_opts next handler_request conn s
          handler_response final fresh in
      let same = ap (λ (x : Response). x.status) response in
      rw runs
        (elim (middleware_contains core stack_trace panic_logger panic_opts
          (logged core stack_trace to_lower now generator id_opts panic_logger panic_opts logger
            log_opts next)
          handler_request conn s handler_response
          (middleware-SendsFinal to_lower now logger log_opts next handler_request final) fresh
          has) [
            | inl (back, kept) ↦ (
              ap (λ (x : Run σ (Unit {0})). x.end) kept ∙ back,
              inl (sym ends ∙ back, ap (λ (x : Run σ (Unit {0})). x.response) kept ∙ response),
            )
            | inr (inl (p, back, unsent, sends)) ↦
                (sends.0, inr (inl (p, sym ends ∙ back, sym same ∙ unsent, sends.1)))
            | inr (inr (p, back, status, sent, returns, kept)) ↦
                (returns, inr (inr (p, sym ends ∙ back, status, sym same ∙ sent, kept ∙ response)))
          ])
