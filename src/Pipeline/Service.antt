-- ===== src/Pipeline/Service.antt =====
-- The middlewares around a service, in the order of README.md and USAGE.md: request IDs, recovery,
-- logging. They are outermost, so that `next` stands for what else the service has.
pub mod Laws
use txova_go_middleware.Base.{ℕ, Option, List, [], ◌∷◌, Text}
use txova_go_middleware.Base.Int.{ℤ}
use txova_go_middleware.Errors.{Core}
use txova_go_middleware.Http.Program.{Middleware}
use txova_go_middleware.Http.Logging.{Logger}
use txova_go_middleware.Chain.{chain}
use txova_go_middleware.RequestId
use txova_go_middleware.RequestId.{Generator}
use txova_go_middleware.Recovery
use txova_go_middleware.RequestLog

-- `requestid.Middleware(...)`, `recovery.Middleware(...)` and `mwlog.Middleware(...)`, chained.
unfoldable pub service :
    (core : Core) (stack_trace : ℕ → Text) (to_lower : Text → Text) {σ : Type 0} (now : σ → ℤ)
    → Generator σ
    → List (RequestId.Config σ → RequestId.Config σ)
    → Option (Logger σ)
    → List (Recovery.Config → Recovery.Config)
    → Logger σ
    → List (RequestLog.Config → RequestLog.Config)
    → Middleware σ
service core stack_trace to_lower now generator id_opts panic_logger panic_opts logger log_opts =
    chain (
      RequestId.middleware generator id_opts
      ∷ Recovery.middleware core stack_trace panic_logger panic_opts
      ∷ RequestLog.middleware to_lower now logger log_opts
      ∷ [])
