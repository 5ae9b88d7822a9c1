-- ===== src/Maintenance.antt =====
-- maintenance/maintenance.go: blocking requests in maintenance mode. Times are those of package
-- time, of any type; `marshal` is how encoding/json writes the body, or its error.
pub mod Laws
use txova_go_middleware.Base.{
  Bool, true, false, Option, none, some, List, [], ◌∷◌, ◌==◌, if◌then◌else◌, Text, Text_eq, codes,
  contains, Result, ok, err, ◌||◌,
}
use txova_go_middleware.Context.{Context}
use txova_go_middleware.Errors.{Core}
use txova_go_middleware.Errors.Reply.{encode, set_json_headers, http_error, status_text}
use txova_go_middleware.ClientIp.{get_client_ip}
use txova_go_middleware.Http.Program.{
  Request, WriteError, broken, Program, ret, ◌>>=◌, ◌>>◌, set, send_status, Handler, Middleware,
}
use txova_go_middleware.Http.Logging.{apply_options}

-- `Config`
pub record Config : Type 0 where
  pub bypass_ips : List Text
  pub bypass_paths : List Text
  pub default_message : Text

pub with_bypass_ips : List Text → Config → Config
with_bypass_ips ips c = record c { bypass_ips = ips }

pub with_bypass_paths : List Text → Config → Config
with_bypass_paths paths c = record c { bypass_paths = paths }

pub with_default_message : Text → Config → Config
with_default_message message c = record c { default_message = message }

unfoldable pub configure : List (Config → Config) → Config
unfolding apply_options
configure opts = apply_options opts (record {
  bypass_ips = [];
  bypass_paths = codes "/health" ∷ codes "/ready" ∷ [];
  default_message = codes "Service is temporarily unavailable for maintenance";
})

-- The map `bypassPaths`, as a test.
unfoldable pub bypasses_path : Config → Text → Bool
bypasses_path cfg path = contains (codes "/health" ∷ codes "/ready" ∷ cfg.bypass_paths) path

abbrev fallback : {σ : Type 0} → Option WriteError → Program σ (Unit {0})
fallback none = ret tt
fallback (some e) = http_error (status_text 503) 503

-- `Encode`: nothing is written if the value cannot be encoded.
encode_result : {σ : Type 0} → Result Text Text → Program σ (Option WriteError)
encode_result (ok text) = encode text
encode_result (err e) = ret (some (broken e))

choose_message : Config → Result Text Text → Text
choose_message cfg (err e) = cfg.default_message
choose_message cfg (ok message) = if message == [] then cfg.default_message else message

unfoldable pub known_end : {Time : Type 0} → Result Text (Option Time) → Option Time
known_end (err e) = none
known_end (ok t) = t

module _ (Time : Type 0) where
  -- The fields of `Response`, its `Error` included.
  pub record Reply : Type 0 where
    pub code : Text
    pub message : Text
    pub end_time : Option Time

  -- `FlagStore`; every call may draw on the shared state, and fail with an error's text.
  pub record FlagStore (σ : Type 0) : Type 0 where
    pub is_enabled : Context → Program σ (Result Text Bool)
    pub get_message : Context → Program σ (Result Text Text)
    pub get_end_time : Context → Program σ (Result Text (Option Time))

module _ (core : Core) {Time : Type 0} (marshal : Reply Time → Result Text Text) {σ : Type 0} where
  -- `writeMaintenanceResponse`
  unfoldable pub write_maintenance_response : Text → Option Time → Program σ (Unit {0})
  unfolding encode_result set_json_headers
  write_maintenance_response message end_time = do
    set_json_headers
    set (codes "Retry-After") (codes "300")
    send_status (core.status (core.service_unavailable message))
    failed ← encode_result (
        marshal
          (record { code = codes "SERVICE_UNAVAILABLE"; message = message; end_time = end_time }))
    fallback failed

  -- The request is blocked.
  block : Config → FlagStore Time σ → Request → Program σ (Unit {0})
  unfolding choose_message known_end
  block cfg store r = do
    message ← store.get_message r.context
    end_time ← store.get_end_time r.context
    write_maintenance_response (choose_message cfg message) (known_end end_time)

  serve_status :
      Config → FlagStore Time σ → Handler σ → Request → Result Text Bool → Program σ (Unit {0})
  unfolding block
  serve_status cfg store next r (err e) = next r
  serve_status cfg store next r (ok false) = next r
  serve_status cfg store next r (ok true) = block cfg store r

  -- The handler that the middleware returns.
  unfoldable pub check : Config → FlagStore Time σ → Middleware σ
  unfolding serve_status
  check cfg store next r =
      if bypasses_path cfg r.path
      then next r
      else if contains cfg.bypass_ips (get_client_ip r)
      then next r
      else (store.is_enabled r.context >>= serve_status cfg store next r)

  -- `Middleware(store, opts...)`
  unfoldable pub middleware : FlagStore Time σ → List (Config → Config) → Middleware σ
  middleware store opts = check (configure opts) store
