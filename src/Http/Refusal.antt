-- ===== src/Http/Refusal.antt =====
-- What it means that a middleware answers a request itself, and how programs run in a row.
use txova_go_middleware.Base.{
  ℕ, ◌≡◌, refl, Option, none, some, Text_eq, codes, ap, Bool-cases, inl, inr, ◌||◌, ◌∙◌, sym,
}
use txova_go_middleware.Http.Headers.{header_get}
use txova_go_middleware.Http.Program.{
  Request, invalid_code, Program, ret, throw, load, store, get_header, set_header, write_header,
  write, ◌>>=◌, ◌>>◌, Handler, Middleware,
}
use txova_go_middleware.Http.Server.{
  delivered, Response, Connection, returned, Run, run, resume, put_status, is_sent, is_valid_code,
}
use txova_go_middleware.Http.Logging.{log}
use txova_go_middleware.Errors.Reply.{content_type, content_type_options}

-- The run ended normally, and sent the status with the headers of a JSON error.
abbrev pub Answered : {σ : Type 0} → ℕ → Run σ (Unit {0}) → Type 0
Answered status r =
    (r.end ≡ returned tt)
    × (r.response.status ≡ some status)
    × (header_get r.response.sent content_type ≡ codes "application/json; charset=utf-8")
    × (header_get r.response.sent content_type_options ≡ codes "nosniff")

-- So does every run of the program on a response that has sent nothing yet.
pub record Answers {σ : Type 0} (status : ℕ) (m : Program σ (Unit {0})) : Type 0 where
  pub answer :
      (conn : Connection) (s : σ) (w : Response)
      → w.status ≡ none
      → Answered status (run conn m s w)

-- The middleware answers the request with this status, and does not call the next handler: what it
-- does is the same for every one.
pub record Refuses {σ : Type 0} (status : ℕ) (guard : Middleware σ) (r : Request) : Type 0 where
  pub ignores_next : (next other : Handler σ) → guard next r ≡ guard other r
  pub answers : (next : Handler σ) → Answers status (guard next r)

-- The middleware hands the request to the next handler as it came.
abbrev pub Passes : {σ : Type 0} → Middleware σ → Request → Type 0
Passes {σ} guard r = (next : Handler σ) → guard next r ≡ next r

pub Refuses-of_eq :
    {σ : Type 0} (status : ℕ) (guard : Middleware σ) (r : Request) (m : Program σ (Unit {0}))
    → ((next : Handler σ) → guard next r ≡ m)
    → Answers status m
    → Refuses status guard r
Refuses-of_eq status guard r m e a = record {
  ignores_next = λ next other. e next ∙ sym (e other);
  answers = λ next. rw (e next) a;
}

module _ (conn : Connection) {σ A B : Type 0} where
  -- A program that goes on is run from where the first one ended.
  pub run-bind :
      (m : Program σ A) (f : A → Program σ B) (s : σ) (w : Response)
      → run conn (m >>= f) s w ≡ resume conn (run conn m s w) f
  unfolding run resume
  run-bind (ret a) f s w = refl
  run-bind (throw p) f s w = refl
  run-bind (load k) f s w = run-bind (k s) f s w
  run-bind (store t m) f s w = run-bind m f t w
  run-bind (get_header k) f s w = run-bind (k w.header) f s w
  run-bind (set_header key v m) f s w = run-bind m f s _
  run-bind (write_header code k) f s w =
      elim (Bool-cases (is_sent w.status || is_valid_code code)) [
        | inl good ↦ rw good (run-bind (k none) f s (put_status code w))
        | inr bad ↦ rw bad (run-bind (k (some invalid_code)) f s w)
      ]
  run-bind (write b k) f s w = run-bind (k (delivered conn w b).0 (delivered conn w b).1) f s _

-- What follows a program that always returns.
pub run-bind_returned :
    (conn : Connection) {σ A B : Type 0} (m : Program σ A) (f : A → Program σ B) (s : σ)
    (w : Response) (a : A)
    → (run conn m s w).end ≡ returned a
    → run conn (m >>= f) s w ≡ run conn (f a) (run conn m s w).state (run conn m s w).response
unfolding resume
run-bind_returned conn m f s w a e = run-bind conn m f s w ∙ rw (e, resume) refl

-- The same where the first program's run is known.
pub run-bind_of_eq :
    (conn : Connection) {σ A B : Type 0} (m : Program σ A) (f : A → Program σ B) (s : σ)
    (w : Response) {ran : Run σ A}
    → run conn m s w ≡ ran
    → run conn (m >>= f) s w ≡ resume conn ran f
run-bind_of_eq conn m f s w e = run-bind conn m f s w ∙ ap (λ ran. resume conn ran f) e

-- The program ends normally and leaves the response alone.
abbrev pub IsSilent : {σ : Type 0} → Program σ (Unit {0}) → Type 0
IsSilent {σ} m =
    (conn : Connection) (s : σ) (w : Response)
    → ((run conn m s w).end ≡ returned tt) × ((run conn m s w).response ≡ w)

pub log-IsSilent : {σ E : Type 0} (logger : Option (E → σ → σ)) (e : E) → IsSilent (log logger e)
unfolding log run
log-IsSilent none e conn s w = (refl, refl)
log-IsSilent (some f) e conn s w = (refl, refl)

module _ {σ : Type 0} (m : Program σ (Unit {0})) (quiet : IsSilent m) where
  pub run_after_silent :
      {A : Type 0} (n : Program σ A) (conn : Connection) (s : σ) (w : Response)
      → run conn (m >> n) s w ≡ run conn n (run conn m s w).state w
  run_after_silent n conn s w =
      let (ends, same) = quiet conn s w in
      run-bind_returned conn m (λ _. n) s w tt ends ∙ ap (run conn n (run conn m s w).state) same

  pub IsSilent-bind : (n : Program σ (Unit {0})) → IsSilent n → IsSilent (m >> n)
  IsSilent-bind n later conn s w = rw (run_after_silent n conn s w) (later conn _ w)

  pub Answers-after_silent :
      (status : ℕ) (n : Program σ (Unit {0})) → Answers status n → Answers status (m >> n)
  Answers-after_silent status n a = record {
    answer = λ conn s w fresh. rw (run_after_silent n conn s w) (a.answer conn _ w fresh);
  }
