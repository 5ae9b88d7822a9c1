-- ===== src/RequestLog/Laws/Panics.antt =====
-- A handler that panics is not logged; and the logger sends no other statuses than the handler.
use mathlib.Core.Path.{subst}
use txova_go_middleware.Base.{
  ◌≡◌, inl, inr, refl, sym, none, List, Bool-cases, Text, Text_eq, contains,
}
use txova_go_middleware.Base.Int.{ℤ}
use txova_go_middleware.Http.Program.{
  Request, Panic, Program, ret, throw, load, store, get_header, set_header, write_header, write,
  Handler,
}
use txova_go_middleware.Http.Server.{Response, Connection, panicked, run, resume}
use txova_go_middleware.Http.Final.{SendsFinal, SendsFinal-bind, if-SendsFinal}
use txova_go_middleware.Http.Logging.{Logger, log}
use txova_go_middleware.Http.Refusal.{run-bind_of_eq}
use txova_go_middleware.RequestLog.{
  Config, configure, ResponseWriter, new_writer, note_status, add_bytes, recorded, serve_logged,
  middleware,
}
use txova_go_middleware.RequestLog.Sizes.{taken}
use txova_go_middleware.RequestLog.Laws.{Knows, Follows, recorded-Follows}

recorded-SendsFinal :
    {σ A : Type 0} (m : Program σ A) (t : ResponseWriter) → SendsFinal m → SendsFinal (recorded t m)
unfolding recorded SendsFinal
recorded-SendsFinal (ret a) t h = tt
recorded-SendsFinal (throw p) t h = tt
recorded-SendsFinal (load k) t h = λ s. recorded-SendsFinal (k s) t (h s)
recorded-SendsFinal (store s m) t h = recorded-SendsFinal m t h
recorded-SendsFinal (get_header k) t h = λ x. recorded-SendsFinal (k x) t (h x)
recorded-SendsFinal (set_header key v m) t h = recorded-SendsFinal m t h
recorded-SendsFinal (write_header code k) t h =
    if-SendsFinal t.wrote_header (recorded t (k none))
      (write_header code (λ p. recorded (note_status code t) (k p)))
      (recorded-SendsFinal (k none) t h.1)
      (h.0, recorded-SendsFinal (k none) (note_status code t) h.1)
recorded-SendsFinal (write b k) t h =
    if-SendsFinal t.wrote_header (write b (λ n e. recorded (add_bytes n t) (k n e))) _
      (λ n e. recorded-SendsFinal (k n e) (add_bytes n t) (h n e))
      ((refl, refl), λ n e. recorded-SendsFinal (k n e) (add_bytes n (note_status 200 t)) (h n e))

module _ (to_lower : Text → Text) {σ : Type 0} (now : σ → ℤ) (logger : Logger σ)
    (opts : List (Config → Config)) (next : Handler σ) (r : Request)
    (final : SendsFinal (next r)) where
  serve_logged-SendsFinal : SendsFinal (serve_logged to_lower now logger (configure opts) next r)
  unfolding serve_logged SendsFinal log
  serve_logged-SendsFinal = λ s.
      SendsFinal-bind (recorded new_writer (next r)) _
        (recorded-SendsFinal (next r) new_writer final) (λ x s' s''. tt)

  -- The logger sends final statuses only, if the handler does.
  pub middleware-SendsFinal : SendsFinal (middleware to_lower now logger opts next r)
  unfolding middleware
  middleware-SendsFinal = elim (Bool-cases (contains (configure opts).exclude_paths r.path)) [
    | inl excluded ↦ rw excluded final
    | inr logged ↦ rw logged serve_logged-SendsFinal
  ]

  module _ (conn : Connection) (s s' : σ) (w w' : Response) where
    -- Around a handler that sends final statuses only and panics, on a response that has sent
    -- nothing before it: the panic goes on with the response and the state of the handler, so that
    -- the logger was given no entry.
    pub middleware_panics :
        (p : Panic)
        → w.status ≡ none
        → run conn (next r) s w ≡ record { end = panicked p; state = s'; response = w' }
        → run conn (middleware to_lower now logger opts next r) s w
          ≡ record { end = panicked p; state = s'; response = w' }
    unfolding middleware serve_logged run resume
    middleware_panics p fresh ran =
        let fl =
          subst
            (λ plain.
              Follows (taken conn (next r) s w 0) plain
                (run conn (recorded new_writer (next r)) s w))
            ran
            (recorded-Follows conn (next r) new_writer s w
              (subst (Knows new_writer) (sym fresh) (refl, refl)) final) in
        elim (Bool-cases (contains (configure opts).exclude_paths r.path)) [
          | inl excluded ↦ rw excluded ran
          | inr logged ↦
              rw logged (run-bind_of_eq conn (recorded new_writer (next r)) _ s w fl.same)
        ]
