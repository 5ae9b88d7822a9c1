-- ===== src/Timeout/Writer.antt =====
-- timeout/timeout.go: `timeoutWriter`, one call at a time. Each call holds the mutex, so that it is
-- one step; `Header()` is not guarded.
use txova_go_middleware.Base.{ℕ, Bool, true, false, ◌||◌, Option, none, some, Text, if◌then◌else◌}
use txova_go_middleware.Http.Headers.{header_set}
use txova_go_middleware.Http.Program.{
  WriteError, deadline_exceeded, invalid_code, Program, ret, throw, load, store, get_header,
  set_header, write_header, write,
}
use txova_go_middleware.Http.Server.{
  delivered, Response, Connection, is_sent, is_valid_code, put_status, put_bytes,
}

pub record TimeoutWriter : Type 0 where
  pub timed_out : Bool
  pub wrote_header : Bool
  pub code : ℕ

abbrev pub new_writer : TimeoutWriter
new_writer = record { timed_out = false; wrote_header = false; code = 0 }

-- `setTimedOut` and `hasWritten`
abbrev pub set_timed_out : TimeoutWriter → TimeoutWriter
set_timed_out t = record t { timed_out = true }

abbrev pub has_written : TimeoutWriter → Bool
has_written t = t.wrote_header

-- A goroutine that runs a program: what is left of it, and the state and response that it shares.
pub record Thread (σ : Type 0) : Type 0 where
  pub program : Program σ (Unit {0})
  pub state : σ
  pub response : Response

module _ (conn : Connection) {σ : Type 0} where
  abbrev pub thread : Program σ (Unit {0}) → σ → Response → Thread σ
  thread m s w = record { program = m; state = s; response = w }

  -- The next call on the server's writer; `none` if the program has ended.
  unfoldable pub plain_step : Program σ (Unit {0}) → σ → Response → Option (Thread σ)
  plain_step (ret a) s w = none
  plain_step (throw p) s w = none
  plain_step (load k) s w = some (thread (k s) s w)
  plain_step (store s' m) s w = some (thread m s' w)
  plain_step (get_header k) s w = some (thread (k w.header) s w)
  plain_step (set_header key v m) s w =
      some (thread m s (record w { header = header_set w.header key v }))
  plain_step (write_header code k) s w =
      if is_sent w.status || is_valid_code code
      then some (thread (k none) s (put_status code w))
      else some (thread (k (some invalid_code)) s w)
  plain_step (write b k) s w = some (
      thread (k (delivered conn w b).0 (delivered conn w b).1) s
        (put_bytes (delivered conn w b).0 b w))

  abbrev beside : TimeoutWriter → Option (Thread σ) → Option (TimeoutWriter × Thread σ)
  beside t none = none
  beside t (some th) = some (t, th)

  -- `tw.WriteHeader(code)`
  unfoldable pub step_header :
      ℕ
      → (Program σ (Unit {0}))
      → Option (Thread σ)
      → TimeoutWriter
      → σ
      → Response
      → Option (TimeoutWriter × Thread σ)
  step_header code ignored sends t s w =
      if t.timed_out || t.wrote_header
      then some (t, thread ignored s w)
      else beside (record t { wrote_header = true; code = code }) sends

  -- `tw.Write(b)`
  unfoldable pub step_write :
      Text
      → (ℕ → Option WriteError → Program σ (Unit {0}))
      → TimeoutWriter
      → σ
      → Response
      → Option (TimeoutWriter × Thread σ)
  unfolding plain_step
  step_write b k t s w =
      if t.timed_out
      then some (t, thread (k 0 (some deadline_exceeded)) s w)
      else if t.wrote_header
      then beside t (plain_step (write b k) s w)
      else beside (record t { wrote_header = true; code = 200 })
          (plain_step (write b k) s (put_status 200 w))

  -- The next call of the handler, on a `timeoutWriter`.
  unfoldable pub handler_step :
      Program σ (Unit {0}) → TimeoutWriter → σ → Response → Option (TimeoutWriter × Thread σ)
  unfolding plain_step step_header step_write
  handler_step (write_header code k) t s w =
      step_header code (k none) (plain_step (write_header code k) s w) t s w
  handler_step (write b k) t s w = step_write b k t s w
  handler_step m t s w = beside t (plain_step m s w)
