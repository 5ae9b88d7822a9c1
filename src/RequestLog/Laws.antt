-- ===== src/RequestLog/Laws.antt =====
-- The log entry of a request, and the response that the client sees.
pub mod Panics
use mathlib.Core.Path.{subst}
use txova_go_middleware.Base.{
  ℕ, ◌++◌, ◌≡◌, inl, inr, refl, sym, ap, true, false, Option, none, some, List, arith, Bool-cases,
  Holds, Text, Text_eq, contains, contains_iff, take,
}
use txova_go_middleware.Base.Int.{ℤ, ◌-ℤ◌}
use txova_go_middleware.Http.Program.{
  Request, Program, ret, throw, load, store, get_header, set_header, write_header, write, Handler,
}
use txova_go_middleware.Http.Server.{
  Response, Connection, delivered, End, returned, panicked, Run, run, resume, is_sent, put_status,
  put_bytes,
}
use txova_go_middleware.Http.Final.{SendsFinal, put_status_sent, put_status_final}
use txova_go_middleware.Http.Logging.{Entry, Logger, log}
use txova_go_middleware.RequestLog.Sizes.{taken}
use txova_go_middleware.RequestLog.Entries.{Describes, entry_of-Describes}
use txova_go_middleware.Http.Refusal.{run-bind_of_eq}
use txova_go_middleware.RequestLog.{
  Config, configure, ResponseWriter, new_writer, note_status, add_bytes, recorded, entry_of,
  serve_logged, middleware,
}

-- The wrapper knows the status that was sent; 200 stands for none.
abbrev pub Knows : ResponseWriter → Option ℕ → Type 0
Knows t none = (t.wrote_header ≡ false) × (t.status ≡ 200)
Knows t (some status) = (t.wrote_header ≡ true) × (t.status ≡ status)

-- The status that a log shows for a response.
abbrev pub reported : Option ℕ → ℕ
reported none = 200
reported (some status) = status

Knows-reported :
    (t : ResponseWriter) (status : Option ℕ) → Knows t status → t.status ≡ reported status
Knows-reported t none h = h.1
Knows-reported t (some status) h = h.1

-- How a recorded run ends, after the plain one.
abbrev record_end : {A : Type 0} → End A → ResponseWriter → End (A × ResponseWriter)
record_end (returned a) t = returned (a, t)
record_end (panicked p) t = panicked p

record Follows {σ A : Type 0} (bytes : ℕ) (plain : Run σ A) (wrapped : Run σ (A × ResponseWriter))
    : Type 0 where
  writer : ResponseWriter
  counted : writer.bytes_written ≡ bytes
  knows : Knows writer plain.response.status
  same :
      wrapped
      ≡ record { end = record_end plain.end writer; state = plain.state; response = plain.response }

put_status_again : (w : Response) → put_status 200 (put_status 200 w) ≡ put_status 200 w
put_status_again w = elim (Bool-cases (is_sent w.status)) [
  | inl sent ↦ ap (put_status 200) (put_status_sent 200 w sent)
  | inr unsent ↦
      put_status_sent 200 (put_status 200 w) (ap is_sent (put_status_final 200 w unsent refl))
]

delivered_again :
    (conn : Connection) (w : Response) (b : Text)
    → delivered conn (put_status 200 w) b ≡ delivered conn w b
unfolding delivered
delivered_again conn w b = ap (λ x. conn x b) (put_status_again w)

put_bytes_again :
    (n : ℕ) (b : Text) (w : Response) → put_bytes n b (put_status 200 w) ≡ put_bytes n b w
unfolding put_bytes
put_bytes_again n b w =
    ap (λ (x : Response). record x { body = x.body ++ take n b }) (put_status_again w)

Knows-cases :
    (t : ResponseWriter) (o : Option ℕ) → Knows t o → is_sent o ≡ true → t.wrote_header ≡ true
Knows-cases t none h sent = cc
Knows-cases t (some status) h sent = h.0

idle_cases :
    (t : ResponseWriter) (o : Option ℕ) → Knows t o → is_sent o ≡ false → t.wrote_header ≡ false
idle_cases t none h unsent = h.0
idle_cases t (some status) h unsent = cc

Knows-started :
    (t : ResponseWriter) (w : Response)
    → Knows t w.status
    → is_sent w.status ≡ true
    → t.wrote_header ≡ true
Knows-started t w h sent = Knows-cases t w.status h sent

Knows-idle :
    (t : ResponseWriter) (w : Response)
    → Knows t w.status
    → is_sent w.status ≡ false
    → t.wrote_header ≡ false
Knows-idle t w h unsent = idle_cases t w.status h unsent

put_bytes_sent :
    (n : ℕ) (b : Text) (w : Response)
    → is_sent w.status ≡ true
    → (put_bytes n b w).status ≡ w.status
unfolding put_bytes
put_bytes_sent n b w sent = ap (λ (x : Response). x.status) (put_status_sent 200 w sent)

put_bytes_first :
    (n : ℕ) (b : Text) (w : Response)
    → is_sent w.status ≡ false
    → (put_bytes n b w).status ≡ some 200
unfolding put_bytes
put_bytes_first n b w unsent = put_status_final 200 w unsent refl

Knows-bytes : (t : ResponseWriter) (n : ℕ) (o : Option ℕ) → Knows t o → Knows (add_bytes n t) o
Knows-bytes t n none h = h
Knows-bytes t n (some status) h = h

module _ {σ A : Type 0} (conn : Connection) where
  recorded-Follows :
      (m : Program σ A) (t : ResponseWriter) (s : σ) (w : Response)
      → Knows t w.status
      → SendsFinal m
      → Follows (taken conn m s w t.bytes_written) (run conn m s w) (run conn (recorded t m) s w)
  unfolding run recorded SendsFinal taken
  recorded-Follows (ret a) t s w h f = record { writer = t; counted = refl; knows = h; same = refl }
  recorded-Follows (throw p) t s w h f = record {
    writer = t;
    counted = refl;
    knows = h;
    same = refl;
  }
  recorded-Follows (load k) t s w h f = recorded-Follows (k s) t s w h (f s)
  recorded-Follows (store s' m) t s w h f = recorded-Follows m t s' w h f
  recorded-Follows (get_header k) t s w h f = recorded-Follows (k w.header) t s w h (f w.header)
  recorded-Follows (set_header key v m) t s w h f = recorded-Follows m t s _ h f
  recorded-Follows (write_header code k) t s w h f = elim (Bool-cases (is_sent w.status)) [
    | inl sent ↦
        let started = Knows-started t w h sent in
        let ih = recorded-Follows (k none) t s w h f.1 in
        rw (started, sent) (rw (put_status_sent code w sent) (rw started at ih))
    | inr unsent ↦
        let idle = Knows-idle t w h unsent in
        rw (idle, unsent, f.0.0)
          (recorded-Follows (k none) (note_status code t) s (put_status code w)
            (subst (Knows (note_status code t)) (sym (put_status_final code w unsent f.0.1))
              (refl, refl))
            f.1)
  ]
  recorded-Follows (write b k) t s w h f =
      let (n, e) = delivered conn w b in
      elim (Bool-cases (is_sent w.status)) [
        | inl sent ↦
            let started = Knows-started t w h sent in
            let ih =
              recorded-Follows (k n e) (add_bytes n t) s (put_bytes n b w)
                (subst (Knows (add_bytes n t)) (sym (put_bytes_sent n b w sent))
                  (Knows-bytes t n w.status h))
                (f n e) in
            rw started (rw started at ih)
        | inr unsent ↦
            let idle = Knows-idle t w h unsent in
            rw (idle, unsent)
              (rw (delivered_again conn w b, put_bytes_again n b w)
                (recorded-Follows (k n e) (add_bytes n (note_status 200 t)) s (put_bytes n b w)
                  (subst (Knows (add_bytes n (note_status 200 t)))
                    (sym (put_bytes_first n b w unsent)) (refl, refl))
                  (f n e)))
      ]

module _ (to_lower : Text → Text) {σ : Type 0} (now : σ → ℤ) (logger : Logger σ)
    (opts : List (Config → Config)) (next : Handler σ) (r : Request) (conn : Connection) (s s' : σ)
    (w w' : Response) where
  -- A request for an excluded path goes to the next handler as it came, and is not logged.
  pub middleware_excluded :
      Holds (configure opts).exclude_paths r.path
      → middleware to_lower now logger opts next r ≡ next r
  unfolding middleware
  middleware_excluded held = rw ((contains_iff (configure opts).exclude_paths r.path).1 held) refl

  -- On a path that is not excluded, around a handler that sends final statuses only and returns,
  -- and on a response that has sent nothing before it: the client sees the response of the handler
  -- alone, and the logger is given one entry. The entry says, field by field, what the request was,
  -- the duration between the two readings of the clock, whether that is slow, how many bytes the
  -- connection took of the handler's writes, and the status that was sent, or 200 if none was; its
  -- level is by that duration and that status.
  pub middleware_logs_once :
      ¬ Holds (configure opts).exclude_paths r.path
      → SendsFinal (next r)
      → w.status ≡ none
      → run conn (next r) s w ≡ record { end = returned tt; state = s'; response = w' }
      → (e : Entry) × Describes to_lower
          (configure opts)
          r
          (now s' -ℤ now s)
          (reported w'.status)
          (taken conn (next r) s w 0)
          e
        × (run conn (middleware to_lower now logger opts next r) s w
            ≡ record { end = returned tt; state = logger e s'; response = w' })
  unfolding middleware serve_logged run resume log
  middleware_logs_once logged final fresh ran =
      let guarded : contains (configure opts).exclude_paths r.path ≡ false =
        ground (arith, contains_iff (configure opts).exclude_paths r.path) in
      let fl =
        subst
          (λ plain.
            Follows (taken conn (next r) s w 0) plain (run conn (recorded new_writer (next r)) s w))
          ran
          (recorded-Follows conn (next r) new_writer s w
            (subst (Knows new_writer) (sym fresh) (refl, refl)) final) in
      let duration = now s' -ℤ now s in
      (
        entry_of to_lower now (configure opts) r fl.writer duration,
        entry_of-Describes to_lower (configure opts) r duration now fl.writer (reported w'.status)
            (taken conn (next r) s w 0) (Knows-reported fl.writer w'.status fl.knows) fl.counted,
        rw guarded (run-bind_of_eq conn (recorded new_writer (next r)) _ s w fl.same),
      )
