-- ===== src/RequestLog/Interfaces.antt =====
-- mwlog/mwlog.go: the optional interfaces of a response writer, `http.Flusher`, `http.Hijacker` and
-- `http.Pusher`, which `responseWriter` passes on. `Conn` is what `Hijack` returns, `Opts` are push
-- options, and `not_supported` is `http.ErrNotSupported`. None of the methods changes the fields of
-- the `responseWriter`.
use txova_go_middleware.Base.{Option, none, some, Text, Result, err}
use txova_go_middleware.Http.Server.{Response}

-- Which of the interfaces the writer below has, and what they do to the response.
pub record Below (Conn Opts Err : Type 0) : Type 0 where
  pub flusher : Option (Response → Response)
  pub hijacker : Option (Response → Result Err Conn × Response)
  pub pusher : Option (Text → Option Opts → Response → Option Err × Response)

module _ {Conn Opts Err : Type 0} (not_supported : Err) (below : Below Conn Opts Err) where
  -- `rw.Hijack()`
  unfoldable pub hijack : Response → Result Err Conn × Response
  hijack w = elim below.hijacker [ some h ↦ h w | none ↦ (err not_supported, w) ]

  -- `rw.Push(target, opts)`
  unfoldable pub push : Text → Option Opts → Response → Option Err × Response
  push target opts w = elim below.pusher [
    | some p ↦ p target opts w
    | none ↦ (some not_supported, w)
  ]

-- `rw.Flush()`
unfoldable pub flush : {Conn Opts Err : Type 0} → Below Conn Opts Err → Response → Response
flush below w = elim below.flusher [ some f ↦ f w | none ↦ w ]
