-- ===== src/RequestLog/Sizes.antt =====
-- How many bytes of a handler's writes go out.
use txova_go_middleware.Base.{ℕ, ◌+◌, ◌||◌, none, some, if◌then◌else◌}
use txova_go_middleware.Http.Headers.{header_set}
use txova_go_middleware.Http.Program.{
  invalid_code, Program, ret, throw, load, store, get_header, set_header, write_header, write,
}
use txova_go_middleware.Http.Server.{
  Response, Connection, delivered, is_sent, is_valid_code, put_status, put_bytes,
}

module _ (conn : Connection) where
  -- The bytes that the connection takes while a program runs from a state and a response, and those
  -- counted before.
  unfoldable pub taken : {σ A : Type 0} → Program σ A → σ → Response → ℕ → ℕ
  taken (ret a) s w n = n
  taken (throw p) s w n = n
  taken (load k) s w n = taken (k s) s w n
  taken (store s' m) s w n = taken m s' w n
  taken (get_header k) s w n = taken (k w.header) s w n
  taken (set_header key v m) s w n = taken m s (record w { header = header_set w.header key v }) n
  taken (write_header code k) s w n =
      let sends = taken (k none) s (put_status code w) n in
      let fails = taken (k (some invalid_code)) s w n in
      if is_sent w.status || is_valid_code code then sends else fails
  taken (write b k) s w n =
      let (size, e) = delivered conn w b in taken (k size e) s (put_bytes size b w) (n + size)
