-- ===== src/Recovery/Laws.antt =====
-- What recovery makes of a handler that returns, and of one that panics.
pub mod Containment
use txova_go_middleware.Base.{
  ℕ, ◌≡◌, refl, sym, ap, ◌∙◌, inl, inr, false, Option, none, some, List, if◌then◌else◌, arith,
  Bool-cases, Text,
}
use mathlib.Core.Path.{subst}
use txova_go_middleware.Base.Int.{pos}
use txova_go_middleware.Context.{request_id_from_context, user_id_from_context}
use txova_go_middleware.Errors.{Core}
use txova_go_middleware.Errors.WriteJson.{Sends, write_json-Sends}
use txova_go_middleware.Errors.Reply.{set_json_headers, status_text}
use txova_go_middleware.Http.Program.{
  Request, WriteError, Panic, Program, ret, throw, load, store, get_header, set_header,
  write_header, write, Handler,
}
use txova_go_middleware.Http.Server.{
  delivered, Response, Connection, End, returned, panicked, Run, run, resume, is_sent, put_status,
  put_bytes,
}
use txova_go_middleware.Http.Final.{SendsFinal, put_status_sent, put_status_final}
use txova_go_middleware.Http.Logging.{Logger}
use txova_go_middleware.Http.Refusal.{IsSilent, log-IsSilent, run_after_silent, run-bind_of_eq}
use txova_go_middleware.Http.JsonReply.{IsTail, ret-IsTail, http_error-IsTail}
use txova_go_middleware.Recovery.{
  RecoveryWriter, guarded, note_header, note_write, Config, configure, log_panic, fallback,
  write_error_response, capture, handle_panic, recovered, middleware,
}

-- The wrapper and the writer below agree on whether the response has started.
abbrev Agrees : RecoveryWriter → Response → Type 0
Agrees t w = t.written ≡ is_sent w.status

-- The wrapped run, against the plain one.
record Follows {σ A : Type 0} (conn : Connection) (plain : Run σ A)
    (wrapped : Run σ (End A × RecoveryWriter)) : Type 0 where
  writer : RecoveryWriter
  agrees : Agrees writer plain.response
  same : wrapped ≡ record {
    end = returned (plain.end, writer);
    state = plain.state;
    response = plain.response;
  }

note_write-Agrees :
    (t : RecoveryWriter) (n : ℕ) (b : Text) (w : Response)
    → Agrees t w
    → Agrees (note_write t) (put_bytes n b w)
unfolding put_bytes put_status
note_write-Agrees t n b w h = ground arith

module _ {σ A : Type 0} (conn : Connection) where
  guarded-Follows :
      (t : RecoveryWriter) (m : Program σ A) (s : σ) (w : Response)
      → Agrees t w
      → SendsFinal m
      → Follows conn (run conn m s w) (run conn (guarded t m) s w)
  unfolding guarded run SendsFinal
  guarded-Follows t (ret a) s w h f = record { writer = t; agrees = h; same = refl }
  guarded-Follows t (throw p) s w h f = record { writer = t; agrees = h; same = refl }
  guarded-Follows t (load k) s w h f = guarded-Follows t (k s) s w h (f s)
  guarded-Follows t (store s' m) s w h f = guarded-Follows t m s' w h f
  guarded-Follows t (get_header k) s w h f = guarded-Follows t (k w.header) s w h (f w.header)
  guarded-Follows t (set_header key v m) s w h f = guarded-Follows t m s _ h f
  guarded-Follows t (write_header code k) s w h f = elim (Bool-cases t.written) [
    | inl started ↦
        let sent = sym h ∙ started in
        let ih = guarded-Follows t (k none) s w h f.1 in
        rw (started, sent) (rw (put_status_sent code w sent) (rw started at ih))
    | inr fresh ↦
        let unsent = sym h ∙ fresh in
        rw (fresh, unsent, f.0.0)
          (guarded-Follows (note_header code t) (k none) s (put_status code w)
            (sym (ap is_sent (put_status_final code w unsent f.0.1))) f.1)
  ]
  guarded-Follows t (write b k) s w h f =
      guarded-Follows (note_write t) (k (delivered conn w b).0 (delivered conn w b).1) s _
        (note_write-Agrees t (delivered conn w b).0 b w h)
        (f (delivered conn w b).0 (delivered conn w b).1)

-- A negative stack size is a panic of its own.
abbrev pub HasStack : Config → Type 0
HasStack cfg = (n : ℕ) × (cfg.stack_size ≡ pos n)

module _ (core : Core) (stack_trace : ℕ → Text) {σ : Type 0} where
  fallback-IsTail : (e : Option WriteError) → IsTail (fallback core stack_trace {σ = σ} e)
  fallback-IsTail none = ret-IsTail
  fallback-IsTail (some e) = http_error-IsTail (status_text 500) 500

  write_error_response-Sends :
      (conn : Connection) (s : σ) (w : Response)
      → w.status ≡ none
      → Sends 500 (run conn (write_error_response core stack_trace) s w)
  unfolding write_error_response run set_json_headers
  write_error_response-Sends conn s w fresh =
      write_json-Sends core (core.internal_error _) 500 (core.status-internal_error _) (omega arith)
        (omega arith) (fallback core stack_trace) fallback-IsTail conn s _ fresh

  module _ (logger : Option (Logger σ)) (cfg : Config) (has : HasStack cfg) (r : Request)
      (p : Panic) (t : RecoveryWriter) where
    -- What follows the log entry.
    abbrev answer : Program σ (Unit {0})
    answer = if t.written then ret tt else write_error_response core stack_trace

    abbrev entry : Program σ (Unit {0})
    entry =
        log_panic logger r p (stack_trace has.0) (request_id_from_context (some r.context))
          (user_id_from_context (some r.context)).0 t cfg.print_stack

    entry-IsSilent : IsSilent entry
    unfolding log_panic
    entry-IsSilent = log-IsSilent logger _

    handle_panic_runs :
        (conn : Connection) (s : σ) (w : Response)
        → run conn (handle_panic core stack_trace logger cfg r p t) s w
          ≡ run conn answer (run conn entry s w).state w
    unfolding handle_panic capture
    handle_panic_runs conn s w = rw has.1 (run_after_silent entry entry-IsSilent answer conn s w)

  module _ (logger : Option (Logger σ)) (opts : List (Config → Config)) (next : Handler σ)
      (r : Request) (final : SendsFinal (next r)) (conn : Connection) (s s' : σ) (w w' : Response)
      (fresh : w.status ≡ none) where
    follows :
        Follows conn
          (run conn (next r) s w)
          (run conn (guarded (record { written = false; status = 0 }) (next r)) s w)
    follows =
        guarded-Follows conn (record { written = false; status = 0 }) (next r) s w (rw fresh refl)
          final

    ended :
        (plain : Run σ (Unit {0}))
        → run conn (next r) s w ≡ plain
        → (t : RecoveryWriter) × (t.written ≡ is_sent plain.response.status)
          × (run conn (middleware core stack_trace logger opts next r) s w
              ≡ run conn
                  (recovered core stack_trace logger (configure opts) r (plain.end, t))
                  plain.state
                  plain.response)
    unfolding middleware resume
    ended plain ran =
        let fl =
          subst
            (λ p.
              Follows conn p
                (run conn (guarded (record { written = false; status = 0 }) (next r)) s w))
            ran follows in
        (
          fl.writer,
          fl.agrees,
          run-bind_of_eq conn (guarded (record { written = false; status = 0 }) (next r)) _ s w
              fl.same,
        )

    -- If a handler that sends final statuses only returns, on a response that has sent nothing
    -- before it, then recovery around it changes nothing: the run is that of the handler alone.
    pub middleware_transparent :
        run conn (next r) s w ≡ record { end = returned tt; state = s'; response = w' }
        → run conn (middleware core stack_trace logger opts next r) s w
          ≡ record { end = returned tt; state = s'; response = w' }
    unfolding recovered run
    middleware_transparent ran = (ended _ ran).2

    -- If a handler that sends final statuses only panics before anything was sent, and the
    -- configured stack size is not negative, then the middleware returns and has sent the status
    -- 500.
    pub middleware_answers_panic :
        (has : HasStack (configure opts)) (p : Panic)
        → run conn (next r) s w ≡ record { end = panicked p; state = s'; response = w' }
        → w'.status ≡ none
        → Sends 500 (run conn (middleware core stack_trace logger opts next r) s w)
    unfolding recovered
    middleware_answers_panic has p ran unsent =
        let (t, agrees, runs) = ended _ ran in
        let idle = agrees ∙ ap is_sent unsent in
        let writes = handle_panic_runs logger (configure opts) has r p t conn s' w' in
        rw (runs, writes, idle) (write_error_response-Sends conn _ w' unsent)

    -- If a handler that sends final statuses only panics after it has sent a status, on a response
    -- that had sent nothing before, and the configured stack size is not negative, then the
    -- middleware returns and leaves the response as the handler left it.
    pub middleware_keeps_started :
        (has : HasStack (configure opts)) (p : Panic) (status : ℕ)
        → run conn (next r) s w ≡ record { end = panicked p; state = s'; response = w' }
        → w'.status ≡ some status
        → let ran = run conn (middleware core stack_trace logger opts next r) s w in
          (ran.end ≡ returned tt) × (ran.response ≡ w')
    unfolding recovered run
    middleware_keeps_started has p status ran sent =
        let (t, agrees, runs) = ended _ ran in
        let started = agrees ∙ ap is_sent sent in
        let quiet = handle_panic_runs logger (configure opts) has r p t conn s' w' in
        rw (runs, quiet, started) (refl, refl)
