-- ===== src/Lib.antt =====
-- A model of txova-go-middleware, the HTTP middleware of the Txova services, with its proofs.
--
-- The program is a set of packages, each of which makes `func(http.Handler) http.Handler` values:
-- authentication by JWT (auth/), guards for roles, permissions, user types and owners (rbac/),
-- request IDs (requestid/), maintenance mode (maintenance/), panic recovery (recovery/), timeouts
-- (timeout/), logging (mwlog/), and more. They are composed by chain/, and they meet in the
-- request's context (context.go), the error codes (errors.go) and the address of the client
-- (httputil.go): auth stores claims in the context, rbac reads them, and every log entry carries
-- the request ID.
--
-- The parts of net/http that the program rests on:
--   Http.Headers     `http.Header`: canonical keys, Get and Set
--   Http.Program     requests, and handlers. A handler is a program: a tree of its calls on the
--                    response writer and on the state that it shares with the process (stores,
--                    loggers, clocks), of any type σ. A wrapper of the writer translates trees.
--   Http.Server      the server's own writer, which runs a program from a state and a response.
--                    Panics end a run; the first final status is sent with the headers of then
--   Http.Logging     loggers and audit loggers, as changes of the shared state
--   Http.Final       programs that send no informational and no invalid status
--   Http.Refusal, Http.JsonReply   what it is to answer a request instead of the next handler
-- The parts of the program:
--   Context          context.go, and the claims of auth/claims.go in a context
--   Errors           errors.go; Errors.Reply has what the error responses of the packages share
--   ClientIp         httputil.go, with net.SplitHostPort
--   Chain            chain/chain.go: `Chain`; Chain.Slice and Chain.Group: `Group`, a pointer to a
--                    slice over a backing array that `append` may share
--   Auth.Claims      auth/claims.go: the checks of roles and permissions
--   Auth.Validator   auth/validator.go; Auth.Guard.Verified has `ValidateToken`, with which it
--                    serves the middleware
--   Auth.Bearer, Auth.Guard   auth/middleware.go: the token of a header; the middleware, which
--                    Auth.Guard.Making makes
--   Auth.Optional    auth/optional.go
--   Rbac             rbac/rbac.go
--   RequestId        requestid/requestid.go
--   Maintenance      maintenance/maintenance.go
--   Recovery         recovery/recovery.go
--   Timeout          timeout/timeout.go: Timeout.Writer has `timeoutWriter` call by call, and
--                    Timeout.Race the race of handler and deadline as a step relation
--   RequestLog       mwlog/mwlog.go; RequestLog.Mask has the masking of query parameters,
--                    RequestLog.Entries says what an entry for a request is to hold,
--                    RequestLog.Sizes how many bytes go out, and RequestLog.Interfaces has
--                    `Flush`, `Hijack` and `Push`
--   RateLimit        ratelimit/ratelimit.go: the limiter, over a Redis client that is a parameter;
--                    RateLimit.Middleware has `Middleware`, and RateLimit.Window the fixed window
--                    counter that it promises
--   Cors             mwcors/cors.go: the configuration of go-chi/cors
--   Pipeline         a chain of authentication and a guard, and in Pipeline.Service one of request
--                    IDs, recovery and logging, as README.md composes them
-- Each part has its definitions in the file of its name and its proofs in a module Laws below it;
-- Auth.Guard.Verified has both, since what it proves is about two parts.
-- Tests holds runs at concrete inputs.
--
-- A text is the list of its bytes. A nil pointer, context or logger is `none`, and what reads it
-- panics where the code would. `int` is ℤ where a negative value matters, and else ℕ: statuses
-- are ℕ. Sets that the code builds from lists for lookup are the lists. Loops are recursion on
-- lists, and the loop of `Chain` counts its index down, so no fuel is needed.
--
-- Parameters stand for code that the repository does not hold: `Core` for txova-go-core/errors,
-- with its documented codes and statuses as laws; `Jwt` for golang-jwt; `url_param` for chi's
-- URLParam; the CORS `handler` for go-chi/cors; `Compile` for regular expressions; `RedisClient`
-- for the limiter's client, with `Counters`, what Redis documents of its commands, as laws where a
-- theorem needs them; `itoa` for package strconv; `default_generator` for package uuid; `to_lower`
-- for strings.ToLower, which follows the tables of Unicode; `marshal` for the encoding of the
-- maintenance response, and `stack_trace` for the text of a stack trace. `Connection` says how many
-- bytes a write takes, and whether it fails, and `Below` which optional interfaces a writer has.
--
-- Not modelled: request bodies, which no package reads, and what go-chi/cors does to a request. Time
-- is a clock that the log and the limiter read off the shared state; a deadline may pass at any step.
-- A program tree is finite along every path, so that a handler that never returns is one that makes
-- no step.
pub mod Base
pub mod Http
pub mod Context
pub mod Errors
pub mod ClientIp
pub mod Chain
pub mod Auth
pub mod Rbac
pub mod RequestId
pub mod Maintenance
pub mod Recovery
pub mod Timeout
pub mod RequestLog
pub mod RateLimit
pub mod Cors
pub mod Pipeline
pub mod Tests
