-- ===== src/Timeout/Laws/Answering.antt =====
-- A timeout before the handler wrote anything is answered.
use txova_go_middleware.Base.{ℕ, ◌≡◌, refl, ap, ◌∙◌, false, Option, none, some, Text, text_eq}
use txova_go_middleware.Errors.{Core, http_status, request_timeout}
use txova_go_middleware.Errors.Reply.{set_json_headers, content_type, content_type_options}
use txova_go_middleware.Http.Headers.{header_set}
use txova_go_middleware.Http.Program.{Panic, Program, set_header, write_header}
use txova_go_middleware.Http.Server.{Response, Connection, put_status}
use txova_go_middleware.Timeout.Writer.{set_timed_out, thread, plain_step}
use txova_go_middleware.Timeout.Race.{
  expired, marked, answering, Process, timeout_answer, decided, Step, marks, decides, answers,
  Steps, here, more,
}

timeout_status : (core : Core) → http_status (core.code (request_timeout core)) ≡ 503
unfolding http_status request_timeout text_eq
timeout_status core = rw core.code-new refl

module _ (core : Core) (conn : Connection) {σ : Type 0} where
  -- A step of the answer that sets a header, and one that sends a final status.
  sets_header :
      (p : Process σ) (key v : Text) (m : Program σ (Unit {0}))
      → p.phase ≡ answering (set_header key v m)
      → Step core conn p (record p {
        phase = answering m;
        response = record (p.response) { header = header_set p.response.header key v };
      })
  unfolding plain_step
  sets_header p key v m at =
      answers
        {th = thread conn m p.state
          (record (p.response) { header = header_set p.response.header key v })}
        at refl

  sends_status :
      (p : Process σ) (code : ℕ) (k : Option Panic → Program σ (Unit {0}))
      → code ≡ 503
      → p.phase ≡ answering (write_header code k)
      → p.response.status ≡ none
      → (q : Process σ) × Step core conn p q
        × (q.response.status ≡ some 503)
        × (q.handler ≡ p.handler)
  unfolding plain_step put_status
  sends_status p code k same at fresh = (
    _,
    answers {th = thread conn (k none) p.state (put_status code p.response)} at
        (rw (fresh, same) refl),
    rw (fresh, same) refl,
    refl,
  )

  timeout_shape :
      (v v' : Text) × (k : Option Panic → Program σ (Unit {0})) × (timeout_answer core
        ≡ set_header content_type v (
            set_header content_type_options v'
              (write_header (http_status (core.code (request_timeout core))) k)))
  unfolding timeout_answer set_json_headers
  timeout_shape = (_, _, _, refl)

  -- When the deadline has passed, the handler has not written, and no status was sent, steps that
  -- leave the handler's program where it is lead to a state in which the status 503 was sent.
  pub expired_answers :
      (p : Process σ)
      → p.phase ≡ expired
      → p.writer.wrote_header ≡ false
      → p.response.status ≡ none
      → (q : Process σ) × Steps core conn p q
        × (q.response.status ≡ some 503)
        × (q.handler ≡ p.handler)
  expired_answers p at unwritten fresh =
      let (v, v', k, shape) = timeout_shape in
      let p1 : Process σ = record p { writer = set_timed_out p.writer; phase = marked } in
      let p2 = decided core p1 in
      let answer : p2.phase ≡ answering (timeout_answer core) = rw unwritten refl in
      let m2 = write_header (http_status (core.code (request_timeout core))) k in
      let m1 = set_header content_type_options v' m2 in
      let w1 : Response = record (p.response) {
        header = header_set p.response.header content_type v;
      } in
      let p3 : Process σ = record p2 { phase = answering m1; response = w1 } in
      let p4 : Process σ = record p3 {
        phase = answering m2;
        response = record w1 { header = header_set w1.header content_type_options v' };
      } in
      let (q, sent, status, kept) =
        sends_status p4 (http_status (core.code (request_timeout core))) k (timeout_status core)
          refl fresh in
      (
        q,
        more
            (more
              (more (more (more here (marks at)) (decides refl))
                (sets_header p2 content_type v m1 (answer ∙ ap answering shape)))
              (sets_header p3 content_type_options v' m2 refl))
            sent,
        status,
        kept,
      )
