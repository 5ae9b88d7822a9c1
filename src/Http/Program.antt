-- ===== src/Http/Program.antt =====
-- Requests, and handlers as programs: what a handler does to its `http.ResponseWriter` and to the
-- state that it shares with the rest of the process (stores, clocks, logs), as a tree that a
-- writer interprets. A wrapper of the writer is a translation of such trees.
use txova_go_middleware.Base.{ℕ, Option, none, some, Text}
use txova_go_middleware.Base.Int.{ℤ}
use txova_go_middleware.Context.{Context}
use txova_go_middleware.Http.Headers.{Header}

-- The fields of `*http.Request` that the program reads.
pub record Request : Type 0 where
  pub method : Text
  pub path : Text  -- r.URL.Path
  pub raw_query : Text  -- r.URL.RawQuery
  pub header : Header
  pub remote_addr : Text
  pub content_length : ℤ
  pub context : Context

-- An error that `Write` returns.
pub data WriteError : Type 0 where
  deadline_exceeded : WriteError
  broken : Text → WriteError

-- What a panic carries.
pub data Panic : Type 0 where
  nil_dereference nil_context invalid_code : Panic
  value : Text → Panic

-- `load` and `store` act on the shared state, the others on the response writer. `WriteHeader`
-- may panic, which its continuation is told.
pub data Program (σ : Type 0) (A : Type 0) : Type 0 where
  ret : A → Program σ A
  throw : Panic → Program σ A
  load : (σ → Program σ A) → Program σ A
  store : σ → Program σ A → Program σ A
  get_header : (Header → Program σ A) → Program σ A
  set_header : Text → Text → Program σ A → Program σ A
  write_header : ℕ → (Option Panic → Program σ A) → Program σ A
  write : Text → (ℕ → Option WriteError → Program σ A) → Program σ A

infixl 5 ◌>>=◌ ◌>>◌
abbrev pub ◌>>=◌ : {σ A B : Type 0} → Program σ A → (A → Program σ B) → Program σ B
ret a >>= f = f a
throw p >>= f = throw p
load k >>= f = load (λ s. k s >>= f)
store s m >>= f = store s (m >>= f)
get_header k >>= f = get_header (λ h. k h >>= f)
set_header key v m >>= f = set_header key v (m >>= f)
write_header code k >>= f = write_header code (λ p. k p >>= f)
write b k >>= f = write b (λ n e. k n e >>= f)

abbrev pub ◌>>◌ : {σ B : Type 0} → Program σ (Unit {0}) → Program σ B → Program σ B
m >> n = m >>= λ _. n

-- The calls of a handler as programs of their own.
abbrev pub set : {σ : Type 0} → Text → Text → Program σ (Unit {0})
set key v = set_header key v (ret tt)

-- A panic of the writer is one of the caller.
abbrev pub raise : {σ : Type 0} → Option Panic → Program σ (Unit {0})
raise none = ret tt
raise (some p) = throw p

abbrev pub send_status : {σ : Type 0} → ℕ → Program σ (Unit {0})
send_status code = write_header code raise

abbrev pub send : {σ : Type 0} → Text → Program σ (ℕ × Option WriteError)
send b = write b (λ n e. ret (n, e))

abbrev pub gets : {σ A : Type 0} → (σ → A) → Program σ A
gets f = load (λ s. ret (f s))

-- `http.Handler`, and `func(http.Handler) http.Handler`.
abbrev pub Handler : Type 0 → Type 0
Handler σ = Request → Program σ (Unit {0})

abbrev pub Middleware : Type 0 → Type 0
Middleware σ = Handler σ → Handler σ

-- `r.WithContext(ctx)`
abbrev pub with_context : Request → Context → Request
with_context r ctx = record r { context = ctx }
