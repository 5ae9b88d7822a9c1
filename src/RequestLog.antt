-- ===== src/RequestLog.antt =====
-- mwlog/mwlog.go: one log entry for each request. `now` reads the monotonic clock, in nanoseconds,
-- off the shared state; the logger is not nil, since the code calls it without a test.
pub mod Mask
pub mod Interfaces
pub mod Sizes
pub mod Entries
pub mod Laws
use txova_go_middleware.Base.{
  ℕ, suc, ◌+◌, ◌-◌, ◌/◌, Bool, true, false, ◌&&◌, Option, none, some, List, [], ◌∷◌, ◌++◌, map, leb,
  ◌==◌, if◌then◌else◌, Text, Text_eq, codes, contains,
}
use txova_go_middleware.Base.Int.{ℤ, pos, negsuc, ◌-ℤ◌, ltb_ℤ}
use txova_go_middleware.Context.{request_id_from_context, user_id_from_context}
use txova_go_middleware.ClientIp.{get_client_ip}
use txova_go_middleware.Http.Headers.{header_get}
use txova_go_middleware.Http.Program.{
  Request, Panic, Program, ret, throw, load, store, get_header, set_header, write_header, write,
  ◌>>=◌, ◌>>◌, gets, Handler, Middleware,
}
use txova_go_middleware.Http.Logging.{
  Level, info, warn, error, Attribute, text, number, flag, Entry, Logger, log, apply_options,
}
use txova_go_middleware.RequestLog.Mask.{mask_query_params}

-- `SlowRequestThreshold` is a `time.Duration`, in nanoseconds.
pub record Config : Type 0 where
  pub exclude_paths : List Text
  pub mask_params : List Text
  pub slow_threshold : ℤ

pub with_exclude_paths : List Text → Config → Config
with_exclude_paths paths c = record c { exclude_paths = paths }

pub with_mask_query_params : List Text → Config → Config
with_mask_query_params params c = record c { mask_params = params }

pub with_slow_request_threshold : ℤ → Config → Config
with_slow_request_threshold d c = record c { slow_threshold = d }

unfoldable pub configure : List (Config → Config) → Config
unfolding apply_options
configure opts = apply_options opts (record {
  exclude_paths = codes "/health" ∷ codes "/ready" ∷ codes "/healthz" ∷ codes "/readyz" ∷ [];
  mask_params =
      codes "token"
      ∷ codes "key"
      ∷ codes "secret"
      ∷ codes "password"
      ∷ codes "api_key"
      ∷ codes "apikey"
      ∷ [];
  slow_threshold = pos 0;
})

-- The fields of `responseWriter`.
pub record ResponseWriter : Type 0 where
  pub status : ℕ
  pub bytes_written : ℕ
  pub wrote_header : Bool

abbrev pub new_writer : ResponseWriter
new_writer = record { status = 200; bytes_written = 0; wrote_header = false }

-- `rw.status = code; rw.wroteHeader = true`, and `rw.bytesWritten += n`
abbrev pub note_status : ℕ → ResponseWriter → ResponseWriter
note_status code t = record t { status = code; wrote_header = true }

abbrev pub add_bytes : ℕ → ResponseWriter → ResponseWriter
add_bytes n t = record t { bytes_written = t.bytes_written + n }

-- A panic of the writer below, raised inside `rw.Write`.
abbrev or_raise : {σ A : Type 0} → Option Panic → Program σ A → Program σ A
or_raise none m = m
or_raise (some p) m = throw p

-- A handler run on a `responseWriter`, as one run on the writer below.
unfoldable pub recorded :
    {σ A : Type 0} → ResponseWriter → Program σ A → Program σ (A × ResponseWriter)
recorded t (ret a) = ret (a, t)
recorded t (throw p) = throw p
recorded t (load k) = load (λ s. recorded t (k s))
recorded t (store s m) = store s (recorded t m)
recorded t (get_header k) = get_header (λ h. recorded t (k h))
recorded t (set_header key v m) = set_header key v (recorded t m)
recorded t (write_header code k) =
    let ignored = recorded t (k none) in
    let sends = write_header code (λ p. recorded (note_status code t) (k p)) in
    if t.wrote_header then ignored else sends
recorded t (write b k) =
    let continues = write b (λ n e. recorded (add_bytes n t) (k n e)) in
    let begins = write b (λ n e. recorded (add_bytes n (note_status 200 t)) (k n e)) in
    if t.wrote_header then continues else write_header 200 (λ p. or_raise p begins)

-- `duration.Milliseconds()`
abbrev milliseconds : ℤ → ℤ
milliseconds (pos n) = pos (n / 1000000)
milliseconds (negsuc n) = pos 0 -ℤ pos ((n + 1) / 1000000)

-- The query, if there is one, as it is logged.
abbrev query_attribute : (Text → Text) → Config → Text → List (Text × Attribute)
query_attribute to_lower cfg raw_query =
    if raw_query == []
    then []
    else (codes "query", text (mask_query_params to_lower (map to_lower cfg.mask_params) raw_query))
      ∷ []

unfoldable pub is_slow : Config → ℤ → Bool
is_slow cfg duration = ltb_ℤ (pos 0) cfg.slow_threshold && ltb_ℤ cfg.slow_threshold duration

unfoldable pub level_of : Config → ℤ → ℕ → Level
unfolding is_slow
level_of cfg duration status =
    if is_slow cfg duration
    then warn
    else if leb 500 status
    then error
    else if leb 400 status
    then warn
    else info

module _ (to_lower : Text → Text) {σ : Type 0} (now : σ → ℤ) where
  -- The entry for a request that was served.
  unfoldable pub entry_of : Config → Request → ResponseWriter → ℤ → Entry
  unfolding is_slow level_of
  entry_of cfg r rw' duration = record {
    context = some r.context;
    level = level_of cfg duration rw'.status;
    message = codes "http request";
    attributes =
        ((codes "method", text r.method)
          ∷ (codes "path", text r.path)
          ∷ (codes "status", number (pos rw'.status))
          ∷ (codes "duration_ms", number (milliseconds duration))
          ∷ (codes "request_id", text (request_id_from_context (some r.context)))
          ∷ (codes "user_id", text (user_id_from_context (some r.context)).0)
          ∷ (codes "ip", text (get_client_ip r))
          ∷ (codes "user_agent", text (header_get r.header (codes "User-Agent")))
          ∷ (codes "bytes_in", number r.content_length)
          ∷ (codes "bytes_out", number (pos rw'.bytes_written))
          ∷ [])
        ++ query_attribute to_lower cfg r.raw_query
        ++ (if is_slow cfg duration then (codes "slow", flag true) ∷ [] else []);
  }

  serve_logged : Logger σ → Config → Handler σ → Request → Program σ (Unit {0})
  unfolding recorded log entry_of
  serve_logged logger cfg next r = do
    start ← gets now
    (a, rw') ← recorded new_writer (next r)
    end ← gets now
    log (some logger) (entry_of cfg r rw' (end -ℤ start))

  -- `Middleware(logger, opts...)`
  unfoldable pub middleware : Logger σ → List (Config → Config) → Middleware σ
  unfolding serve_logged
  middleware logger opts next r =
      let cfg = configure opts in
      if contains cfg.exclude_paths r.path then next r else serve_logged logger cfg next r
