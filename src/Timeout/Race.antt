-- ===== src/Timeout/Race.antt =====
-- timeout/timeout.go: the race of the handler's goroutine and the one that waits for it.
use txova_go_middleware.Base.{◌≡◌, Option, none, some, if◌then◌else◌, Text_eq, contains}
use txova_go_middleware.Context.{derived}
use txova_go_middleware.Errors.{Core, app, http_status, request_timeout}
use txova_go_middleware.Errors.Reply.{set_json_headers, http_error, status_text}
use txova_go_middleware.Http.Program.{
  Request, WriteError, Panic, Program, ret, throw, ◌>>=◌, ◌>>◌, send_status, Handler, with_context,
}
use txova_go_middleware.Http.Server.{Response, Connection}
use txova_go_middleware.Timeout.{Config}
use txova_go_middleware.Timeout.Writer.{
  TimeoutWriter, new_writer, set_timed_out, has_written, Thread, plain_step, handler_step,
}

-- Where the waiting goroutine is: before its `select`; past `<-ctx.Done()`; past `setTimedOut`;
-- writing the answer, of which the program is left; or returned. A panic of the handler, which
-- nothing recovers, ends the process.
pub data Phase (σ : Type 0) : Type 0 where
  waiting expired marked returned crashed : Phase σ
  answering : Program σ (Unit {0}) → Phase σ

pub record Process (σ : Type 0) : Type 0 where
  pub handler : Program σ (Unit {0})
  pub writer : TimeoutWriter
  pub phase : Phase σ
  pub state : σ
  pub response : Response

-- `done` is closed when the handler returns, and also when it panics, before the process ends.
abbrev pub HasEnded : {σ : Type 0} → Program σ (Unit {0}) → Type 0
HasEnded (ret a) = Unit
HasEnded (throw p) = Unit
HasEnded _ = ⊥

-- The process is there to run.
abbrev pub IsAlive : {σ : Type 0} → Phase σ → Type 0
IsAlive crashed = ⊥
IsAlive _ = Unit

-- What the handler that the middleware returns starts: on a skipped path the next handler runs on
-- the server's writer, and else the race begins.
pub data Serving (σ : Type 0) : Type 0 where
  direct : Program σ (Unit {0}) → Serving σ
  racing : Process σ → Serving σ

module _ (core : Core) {σ : Type 0} where
  abbrev fallback : Option WriteError → Program σ (Unit {0})
  fallback none = ret tt
  fallback (some e) = http_error (status_text 503) 503

  -- The answer to a request that timed out before the handler wrote anything.
  unfoldable pub timeout_answer : Program σ (Unit {0})
  unfolding set_json_headers
  timeout_answer = do
    let app_err = request_timeout core
    set_json_headers
    send_status (http_status (core.code app_err))
    failed ← core.write_json (core.from_error (app app_err))
    fallback failed

  -- The goroutines as they start; `context.WithTimeout` derives the handler's context.
  abbrev pub start : Handler σ → Request → σ → Response → Process σ
  start next r s w = record {
    handler = next (with_context r (derived r.context));
    writer = new_writer;
    phase = waiting;
    state = s;
    response = w;
  }

  -- `if !tw.hasWritten()`
  abbrev pub decided : Process σ → Process σ
  decided p = record p {
    phase = if has_written p.writer then returned else answering (timeout_answer);
  }

  -- One step of either goroutine. The `select` may take any case that is ready.
  pub data Step (conn : Connection) : Process σ → Process σ → Type 0 where
    handles :
        {p : Process σ} {t : TimeoutWriter} {th : Thread σ}
        → handler_step conn p.handler p.writer p.state p.response ≡ some (t, th)
        → Step conn p (record p {
          handler = th.program;
          writer = t;
          state = th.state;
          response = th.response;
        })
    panics :
        {p : Process σ} {cause : Panic}
        → p.handler ≡ throw cause
        → IsAlive p.phase
        → Step conn p (record p { phase = crashed })
    finishes :
        {p : Process σ}
        → HasEnded p.handler
        → p.phase ≡ waiting
        → Step conn p (record p { phase = returned })
    expires : {p : Process σ} → p.phase ≡ waiting → Step conn p (record p { phase = expired })
    marks :
        {p : Process σ}
        → p.phase ≡ expired
        → Step conn p (record p { writer = set_timed_out p.writer; phase = marked })
    decides : {p : Process σ} → p.phase ≡ marked → Step conn p (decided p)
    answers :
        {p : Process σ} {m : Program σ (Unit {0})} {th : Thread σ}
        → p.phase ≡ answering m
        → plain_step conn m p.state p.response ≡ some th
        → Step conn p
            (record p { phase = answering th.program; state = th.state; response = th.response })
    answered :
        {p : Process σ} → p.phase ≡ answering (ret tt) → Step conn p (record p { phase = returned })

  -- Any number of steps.
  pub data Steps (conn : Connection) : Process σ → Process σ → Type 0 where
    here : {p : Process σ} → Steps conn p p
    more : {p q r : Process σ} → Steps conn p q → Step conn q r → Steps conn p r

  unfoldable pub serve : Config → Handler σ → Request → σ → Response → Serving σ
  serve cfg next r s w =
      if contains cfg.skip_paths r.path then direct (next r) else racing (start next r s w)
