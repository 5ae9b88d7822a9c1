-- ===== src/Pipeline/Service/Laws/Refusals.antt =====
-- A handler that refuses a request, inside a service: the client gets the refusal, and the log shows
-- it.
use mathlib.Core.Path.{subst}
use txova_go_middleware.Base.{ℕ, ◌≡◌, ◌≢◌, refl, ap, Option, none, List, [], Holds, Text, Text_eq}
use txova_go_middleware.Base.Int.{ℤ, ◌-ℤ◌}
use txova_go_middleware.Errors.{Core}
use txova_go_middleware.Http.Program.{Request, Handler}
use txova_go_middleware.Http.Server.{Response, Connection, Run, returned, run}
use txova_go_middleware.Http.Final.{SendsFinal}
use txova_go_middleware.Http.Logging.{Entry, Logger}
use txova_go_middleware.Http.Refusal.{Answered}
use txova_go_middleware.RequestId
use txova_go_middleware.RequestId.{Generator}
use txova_go_middleware.Recovery
use txova_go_middleware.RequestLog
use txova_go_middleware.RequestLog.Sizes.{taken}
use txova_go_middleware.RequestLog.Entries.{Describes}
use txova_go_middleware.RequestLog.Laws.{reported}
use txova_go_middleware.Pipeline.Service.Laws.{
  served, request_id, given_request, given_response, service_returns,
}

run_returned :
    {σ A : Type 0} (ran : Run σ A) (a : A)
    → ran.end ≡ returned a
    → ran ≡ record { end = returned a; state = ran.state; response = ran.response }
run_returned ran a ends =
    ap (λ e. record { end = e; state = ran.state; response = ran.response }) ends

module _ (core : Core) (stack_trace : ℕ → Text) (to_lower : Text → Text) {σ : Type 0} (now : σ → ℤ)
    (generator : Generator σ) (id_opts : List (RequestId.Config σ → RequestId.Config σ))
    (panic_logger : Option (Logger σ)) (panic_opts : List (Recovery.Config → Recovery.Config))
    (logger : Logger σ) (log_opts : List (RequestLog.Config → RequestLog.Config)) (next : Handler σ)
    (r : Request) (conn : Connection) (s : σ) (w : Response) where
  abbrev pub handled_service : Handler σ
  handled_service =
      served core stack_trace to_lower now generator id_opts panic_logger panic_opts logger log_opts
        next

  abbrev pub id_of_request : Text
  id_of_request =
      request_id core stack_trace to_lower now generator id_opts panic_logger panic_opts logger
        log_opts next r conn s s w w

  abbrev pub handled_request : Request
  handled_request =
      given_request core stack_trace to_lower now generator id_opts panic_logger panic_opts logger
        log_opts next r conn s s w w

  abbrev pub handled_response : Response
  handled_response =
      given_response core stack_trace to_lower now generator id_opts panic_logger panic_opts logger
        log_opts next r conn s s w w

  -- On a response that has sent nothing, for a request that has an ID and whose path is logged: if
  -- the handler, which sends final statuses only, answers what the service hands on with a JSON
  -- error of some status, then the client gets such an answer, and the logger one entry, which says
  -- what the request that the handler was given is, how many bytes the connection took, and this
  -- status.
  pub refusal_logged :
      (status : ℕ)
      → w.status ≡ none
      → id_of_request ≢ []
      → SendsFinal (next handled_request)
      → ¬ Holds (RequestLog.configure log_opts).exclude_paths handled_request.path
      → Answered status (run conn (next handled_request) s handled_response)
      → let handled = run conn (next handled_request) s handled_response in
        (e : Entry) × Describes to_lower
          (RequestLog.configure log_opts)
          handled_request
          (now handled.state -ℤ now s)
          status
          (taken conn (next handled_request) s handled_response 0)
          e
        × ((run conn (handled_service r) s w).state ≡ logger e handled.state)
        × Answered status (run conn (handled_service r) s w)
  refusal_logged status fresh given final shown (ends, sends, json, nosniff) =
      let ran = run conn (next handled_request) s handled_response in
      let (receives, e, describes, runs) =
        service_returns core stack_trace to_lower now generator id_opts panic_logger panic_opts
          logger log_opts next r conn s ran.state w ran.response fresh given final shown
          (run_returned ran tt ends) in
      let duration = now ran.state -ℤ now s in
      (
        e,
        subst
            (λ n.
              Describes to_lower (RequestLog.configure log_opts) handled_request duration n
                (taken conn (next handled_request) s handled_response 0) e)
            (ap reported sends) describes,
        ap (λ (x : Run σ (Unit {0})). x.state) runs,
        rw runs (refl, sends, json, nosniff),
      )
