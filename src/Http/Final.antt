-- ===== src/Http/Final.antt =====
-- Programs that send only final statuses: the handlers on which the wrappers of the response writer,
-- which keep the first status only, are faithful to the server's.
use txova_go_middleware.Base.{
  some, refl, ℕ, ◌≡◌, ◌≤◌, Bool, true, false, if◌then◌else◌, arith, Option, none,
}
use txova_go_middleware.Http.Headers.{Header}
use txova_go_middleware.Http.Program.{
  WriteError, Program, ret, throw, load, store, get_header, set_header, write_header, write, ◌>>=◌,
}
use txova_go_middleware.Http.Logging.{log}
use txova_go_middleware.Http.Server.{Response, is_sent, is_informational, is_valid_code, put_status}

-- A status that the server accepts and that ends the headers.
abbrev pub IsFinal : ℕ → Type 0
IsFinal code = (is_valid_code code ≡ true) × (is_informational code ≡ false)

unfoldable pub SendsFinal : {σ A : Type 0} → Program σ A → Type 0
SendsFinal (ret a) = Unit
SendsFinal (throw p) = Unit
SendsFinal {σ} (load k) = (s : σ) → SendsFinal (k s)
SendsFinal (store s m) = SendsFinal m
SendsFinal (get_header k) = (h : Header) → SendsFinal (k h)
SendsFinal (set_header key v m) = SendsFinal m
SendsFinal (write_header code k) = IsFinal code × SendsFinal (k none)
SendsFinal (write b k) = (n : ℕ) (e : Option WriteError) → SendsFinal (k n e)

-- A second status is ignored, and a final one is sent.
pub put_status_sent : (code : ℕ) (w : Response) → is_sent w.status ≡ true → put_status code w ≡ w
unfolding put_status
put_status_sent code w sent = rw sent refl

pub put_status_final :
    (code : ℕ) (w : Response)
    → is_sent w.status ≡ false
    → is_informational code ≡ false
    → (put_status code w).status ≡ some code
unfolding put_status
put_status_final code w unsent final = rw (unsent, final) refl

pub SendsFinal-bind :
    {σ A B : Type 0} (m : Program σ A) (f : A → Program σ B)
    → SendsFinal m
    → ((a : A) → SendsFinal (f a))
    → SendsFinal (m >>= f)
unfolding SendsFinal
SendsFinal-bind (ret a) f h k = k a
SendsFinal-bind (throw p) f h k = tt
SendsFinal-bind (load m) f h k = λ s. SendsFinal-bind (m s) f (h s) k
SendsFinal-bind (store s m) f h k = SendsFinal-bind m f h k
SendsFinal-bind (get_header m) f h k = λ x. SendsFinal-bind (m x) f (h x) k
SendsFinal-bind (set_header key v m) f h k = SendsFinal-bind m f h k
SendsFinal-bind (write_header code m) f h k = (h.0, SendsFinal-bind (m none) f h.1 k)
SendsFinal-bind (write b m) f h k = λ n e. SendsFinal-bind (m n e) f (h n e) k

pub if-SendsFinal :
    {σ A : Type 0} (b : Bool) (m n : Program σ A)
    → SendsFinal m
    → SendsFinal n
    → SendsFinal (if b then m else n)
if-SendsFinal true m n h k = h
if-SendsFinal false m n h k = k

pub IsFinal-range : (code status : ℕ) → code ≡ status → 200 ≤ status → status ≤ 999 → IsFinal code
IsFinal-range code status e low high = ground arith

pub log-SendsFinal :
    {σ E : Type 0} (logger : Option (E → σ → σ)) (e : E) → SendsFinal (log logger e)
unfolding log SendsFinal
log-SendsFinal none e = tt
log-SendsFinal (some f) e = λ s. tt
