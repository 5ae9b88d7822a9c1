-- ===== src/Recovery.antt =====
-- recovery/recovery.go: turning panics into answers. `stack_trace` stands for the trace that
-- `runtime.Stack` writes into a buffer of that size.
pub mod Laws
use txova_go_middleware.Base.{
  ℕ, Bool, true, false, not, Option, none, some, List, [], ◌∷◌, ◌++◌, if◌then◌else◌, Text, codes,
}
use txova_go_middleware.Base.Int.{ℤ, pos, negsuc}
use txova_go_middleware.Context.{request_id_from_context, user_id_from_context}
use txova_go_middleware.Errors.{Core}
use txova_go_middleware.Errors.Reply.{set_json_headers, http_error, status_text}
use txova_go_middleware.Http.Program.{
  Request, WriteError, Panic, value, Program, ret, throw, load, store, get_header, set_header,
  write_header, write, ◌>>=◌, ◌>>◌, Handler, Middleware,
}
use txova_go_middleware.Http.Server.{End, returned, panicked}
use txova_go_middleware.Http.Logging.{
  error, Attribute, text, number, flag, panic_value, Logger, log, apply_options,
}

abbrev pub default_stack_size : ℤ
default_stack_size = pos 4096

-- The fields of `recoveryWriter`.
pub record RecoveryWriter : Type 0 where
  pub written : Bool
  pub status : ℕ

-- `rw.WriteHeader(code)` and `rw.Write(b)`, of the fields.
abbrev note_header : ℕ → RecoveryWriter → RecoveryWriter
note_header code rw' = record { written = true; status = code }

abbrev note_write : RecoveryWriter → RecoveryWriter
note_write rw' = if rw'.written then rw' else record { written = true; status = 200 }

-- A handler run on a `recoveryWriter`, as one run on the writer below; how it ends is a value,
-- because the deferred function recovers.
unfoldable pub guarded :
    {σ A : Type 0} → RecoveryWriter → Program σ A → Program σ (End A × RecoveryWriter)
guarded t (ret a) = ret (returned a, t)
guarded t (throw p) = ret (panicked p, t)
guarded t (load k) = load (λ s. guarded t (k s))
guarded t (store s m) = store s (guarded t m)
guarded t (get_header k) = get_header (λ h. guarded t (k h))
guarded t (set_header key v m) = set_header key v (guarded t m)
guarded t (write_header code k) =
    let skips = guarded t (k none) in
    let sends = write_header code (λ p. guarded (note_header code t) (k p)) in
    if t.written then skips else sends
guarded t (write b k) = write b (λ n e. guarded (note_write t) (k n e))

pub record Config : Type 0 where
  pub stack_size : ℤ
  pub print_stack : Bool

pub with_stack_size : ℤ → Config → Config
with_stack_size size c = record c { stack_size = size }

pub with_print_stack : Bool → Config → Config
with_print_stack enabled c = record c { print_stack = enabled }

unfoldable pub configure : List (Config → Config) → Config
unfolding apply_options
configure opts = apply_options opts (record { stack_size = default_stack_size; print_stack = true })

-- `logPanic`
log_panic :
    {σ : Type 0}
    → Option (Logger σ)
    → Request
    → Panic
    → Text
    → Text
    → Text
    → RecoveryWriter
    → Bool
    → Program σ (Unit {0})
unfolding log
log_panic logger r rec stack request_id user_id rw' print_stack = log logger (record {
  context = some r.context;
  level = error;
  message = codes "panic recovered";
  attributes =
      ((codes "panic", panic_value rec)
        ∷ (codes "method", text r.method)
        ∷ (codes "path", text r.path)
        ∷ (codes "request_id", text request_id)
        ∷ (codes "user_id", text user_id)
        ∷ (codes "response_started", flag rw'.written)
        ∷ (codes "response_status", number (pos rw'.status))
        ∷ [])
      ++ (if print_stack then (codes "stack", text stack) ∷ [] else []);
})

module _ (core : Core) (stack_trace : ℕ → Text) {σ : Type 0} where
  abbrev fallback : Option WriteError → Program σ (Unit {0})
  fallback none = ret tt
  fallback (some e) = http_error (status_text 500) 500

  -- `writeErrorResponse`
  write_error_response : Program σ (Unit {0})
  unfolding set_json_headers
  write_error_response = do
    set_json_headers
    failed ← core.write_json (core.internal_error (codes "an internal error occurred"))
    fallback failed

  -- `make([]byte, size)` and `runtime.Stack`: a negative size is a panic.
  capture : ℤ → Program σ Text
  capture (pos size) = ret (stack_trace size)
  capture (negsuc n) = throw (value (codes "runtime error: makeslice: len out of range"))

  -- `handlePanic`
  handle_panic :
      Option (Logger σ) → Config → Request → Panic → RecoveryWriter → Program σ (Unit {0})
  unfolding log_panic write_error_response capture
  handle_panic logger cfg r rec rw' = do
    stack ← capture cfg.stack_size
    log_panic logger r rec stack (request_id_from_context (some r.context))
        (user_id_from_context (some r.context)).0 rw' cfg.print_stack
    if rw'.written then ret tt else write_error_response

  -- The deferred function.
  recovered :
      Option (Logger σ) → Config → Request → End (Unit {0}) × RecoveryWriter → Program σ (Unit {0})
  unfolding handle_panic
  recovered logger cfg r (returned a, rw') = ret tt
  recovered logger cfg r (panicked p, rw') = handle_panic logger cfg r p rw'

  -- `Middleware(logger, opts...)`
  unfoldable pub middleware : Option (Logger σ) → List (Config → Config) → Middleware σ
  unfolding guarded recovered
  middleware logger opts next r = do
    ended ← guarded (record { written = false; status = 0 }) (next r)
    recovered logger (configure opts) r ended
