-- ===== src/Timeout/Laws/Ending.antt =====
-- The race ends: no run is infinite, and the waiting goroutine needs nobody to return.
use mathlib.Core.Path.{subst}
use mathlib.Core.WellFounded.{Acc}
use txova_go_middleware.Base.{◌≡◌, inl, inr, refl, sym, ◌∙◌, ◌||◌, none, some, Bool-cases}
use txova_go_middleware.Errors.{Core}
use txova_go_middleware.Http.Program.{
  invalid_code, Program, ret, throw, load, store, get_header, set_header, write_header, write,
}
use txova_go_middleware.Http.Server.{
  Response, Connection, is_sent, is_valid_code, put_status, delivered,
}
use txova_go_middleware.Timeout.Writer.{
  TimeoutWriter, Thread, set_timed_out, thread, plain_step, step_header, step_write, handler_step,
}
use txova_go_middleware.Timeout.Race.{
  Phase, waiting, expired, marked, returned, crashed, answering, Process, IsAlive, timeout_answer,
  decided, Step, handles, panics, finishes, expires, marks, decides, answers, answered, Steps, here,
  more,
}
use txova_go_middleware.Timeout.Laws.{OnSome}
use txova_go_middleware.Timeout.Laws.Phases.{Lower, IsLow, phase-IsLow}

module _ (core : Core) (conn : Connection) {σ : Type 0} where
  -- The second process makes one step to the first.
  abbrev pub Succeeds : Process σ → Process σ → Type 0
  Succeeds q p = Step core conn p q

  -- No sequence of steps from the process is infinite.
  abbrev pub Terminates : Process σ → Type 0
  Terminates p = Acc Succeeds p

  abbrev process : Program σ (Unit {0}) → Phase σ → TimeoutWriter → σ → Response → Process σ
  process m f t s w = record { handler = m; writer = t; phase = f; state = s; response = w }

  -- The program of a handler from which every process terminates.
  abbrev IsEnding : Program σ (Unit {0}) → Type 0
  IsEnding m =
      (f : Phase σ) (t : TimeoutWriter) (s : σ) (w : Response) → Terminates (process m f t s w)

  -- Every next call leads to such a program.
  abbrev NextIsEnding : Program σ (Unit {0}) → Type 0
  NextIsEnding m =
      (t : TimeoutWriter) (s : σ) (w : Response)
      → OnSome (λ (x : TimeoutWriter × Thread σ). IsEnding x.1.program) (handler_step conn m t s w)

  Lower-crashed : (f : Phase σ) → IsAlive f → Lower core conn crashed f
  Lower-crashed crashed h = h
  Lower-crashed returned h = refl
  Lower-crashed waiting h = inl refl
  Lower-crashed expired h = inl refl
  Lower-crashed marked h = inl refl
  Lower-crashed (answering m) h = inl refl

  decided-Lower : (p : Process σ) → Lower core conn {σ = σ} (decided core p).phase marked
  decided-Lower p = elim (Bool-cases p.writer.wrote_header) [
    | inl written ↦ rw written (inr (inl refl))
    | inr unwritten ↦ rw unwritten (inr (inr refl))
  ]

  -- After a step, either the handler is at its next call, or the phase is lower.
  step-Terminates :
      {p q : Process σ}
      → Step core conn p q
      → NextIsEnding p.handler
      → ((f : Phase σ)
          → Lower core conn f p.phase
          → (t : TimeoutWriter) (s : σ) (w : Response) → Terminates (process p.handler f t s w))
      → Terminates q
  step-Terminates {p} (handles {t = t} {th = th} moved) next lower =
      subst (OnSome (λ (x : TimeoutWriter × Thread σ). IsEnding x.1.program)) moved
        (next p.writer p.state p.response) p.phase t th.state th.response
  step-Terminates {p} (panics gone alive) next lower =
      lower crashed (Lower-crashed p.phase alive) p.writer p.state p.response
  step-Terminates {p} (finishes ended at) next lower =
      lower returned (subst (Lower core conn returned) (sym at) (inr (inl refl))) p.writer p.state
        p.response
  step-Terminates {p} (expires at) next lower =
      lower expired (subst (Lower core conn expired) (sym at) (inr (inr refl))) p.writer p.state
        p.response
  step-Terminates {p} (marks at) next lower =
      lower marked (subst (Lower core conn marked) (sym at) (inr refl)) (set_timed_out p.writer)
        p.state p.response
  step-Terminates {p} (decides at) next lower =
      lower _ (subst (Lower core conn (decided core p).phase) (sym at) (decided-Lower p)) p.writer
        p.state p.response
  step-Terminates {p} (answers {th = th} at moved) next lower =
      lower (answering th.program)
        (subst (Lower core conn (answering th.program)) (sym at)
          (inr (inr (p.state, p.response, th, moved, refl))))
        p.writer th.state th.response
  step-Terminates {p} (answered at) next lower =
      lower returned (subst (Lower core conn returned) (sym at) (inr (inl refl))) p.writer p.state
        p.response

  IsEnding-of_low :
      (m : Program σ (Unit {0})) (f : Phase σ)
      → IsLow core conn f
      → NextIsEnding m
      → (t : TimeoutWriter) (s : σ) (w : Response) → Terminates (process m f t s w)
  IsEnding-of_low m f (Acc.intro _ lower) next t s w =
      Acc.intro _ (λ q st. step-Terminates st next (λ g l. IsEnding-of_low m g (lower g l) next))

  IsEnding-of_next : (m : Program σ (Unit {0})) → NextIsEnding m → IsEnding m
  IsEnding-of_next m next f = IsEnding-of_low m f (phase-IsLow core conn f) next

  ends : (m : Program σ (Unit {0})) → IsEnding m
  unfolding handler_step plain_step step_header step_write
  ends (ret a) = IsEnding-of_next (ret a) (λ t s w. tt)
  ends (throw p) = IsEnding-of_next (throw p) (λ t s w. tt)
  ends (load k) = IsEnding-of_next (load k) (λ t s w. ends (k s))
  ends (store s' m) = IsEnding-of_next (store s' m) (λ t s w. ends m)
  ends (get_header k) = IsEnding-of_next (get_header k) (λ t s w. ends (k w.header))
  ends (set_header key v m) = IsEnding-of_next (set_header key v m) (λ t s w. ends m)
  ends (write_header code k) = IsEnding-of_next (write_header code k) λ t s w.
      elim (Bool-cases (t.timed_out || t.wrote_header)) [
        | inl drops ↦ rw drops (ends (k none))
        | inr sends ↦ elim (Bool-cases (is_sent w.status || is_valid_code code)) [
          | inl good ↦ rw (sends, good) (ends (k none))
          | inr bad ↦ rw (sends, bad) (ends (k (some invalid_code)))
        ]
      ]
  ends (write b k) = IsEnding-of_next (write b k) λ t s w. elim (Bool-cases t.timed_out) [
    | inl late ↦ rw late (ends (k 0 _))
    | inr early ↦ elim (Bool-cases t.wrote_header) [
      | inl begun ↦ rw (early, begun) (ends (k (delivered conn w b).0 (delivered conn w b).1))
      | inr first ↦ rw (early, first) (ends (k _ _))
    ]
  ]

  -- The middleware has returned, or its answer has panicked.
  abbrev pub IsOver : Phase σ → Type 0
  IsOver returned = Unit
  IsOver (answering (throw p)) = Unit
  IsOver _ = ⊥

  first : {p q r : Process σ} → Step core conn p q → Steps core conn q r → Steps core conn p r
  first st here = more here st
  first st (more rest last) = more (first st rest) last

  -- A run of the waiting goroutine alone to its end.
  abbrev pub ReturnsAlone : Process σ → Type 0
  ReturnsAlone p = (q : Process σ) × Steps core conn p q × IsOver q.phase × (q.handler ≡ p.handler)

  alone_after :
      {p q : Process σ}
      → q.handler ≡ p.handler
      → Step core conn p q
      → ReturnsAlone q
      → ReturnsAlone p
  alone_after same st (r, rest, over, kept) = (r, first st rest, over, kept ∙ same)

  answer_returns :
      (m : Program σ (Unit {0})) (p : Process σ) → p.phase ≡ answering m → ReturnsAlone p
  unfolding plain_step
  answer_returns (ret tt) p at = alone_after refl (answered at) (_, here, tt, refl)
  answer_returns (throw c) p at = (p, here, subst IsOver (sym at) tt, refl)
  answer_returns (load k) p at =
      alone_after refl (answers at refl) (answer_returns (k p.state) _ refl)
  answer_returns (store s m) p at = alone_after refl (answers at refl) (answer_returns m _ refl)
  answer_returns (get_header k) p at =
      alone_after refl (answers at refl) (answer_returns (k p.response.header) _ refl)
  answer_returns (set_header key v m) p at =
      alone_after refl (answers at refl) (answer_returns m _ refl)
  answer_returns (write_header code k) p at =
      elim (Bool-cases (is_sent p.response.status || is_valid_code code)) [
        | inl good ↦
            alone_after refl
              (answers {th = thread conn (k none) p.state (put_status code p.response)} at
                (rw good refl))
              (answer_returns (k none) _ refl)
        | inr bad ↦
            alone_after refl
              (answers {th = thread conn (k (some invalid_code)) p.state p.response} at
                (rw bad refl))
              (answer_returns (k (some invalid_code)) _ refl)
      ]
  answer_returns (write b k) p at =
      alone_after refl (answers at refl) (answer_returns (k _ _) _ refl)

  decided_returns : (p : Process σ) → ReturnsAlone (decided core p)
  decided_returns p = elim (Bool-cases p.writer.wrote_header) [
    | inl written ↦ (decided core p, here, rw written tt, refl)
    | inr unwritten ↦ answer_returns (timeout_answer core) (decided core p) (rw unwritten refl)
  ]

  marked_returns : (p : Process σ) → p.phase ≡ marked → ReturnsAlone p
  marked_returns p at = alone_after refl (decides at) (decided_returns p)

  expired_returns : (p : Process σ) → p.phase ≡ expired → ReturnsAlone p
  expired_returns p at = alone_after refl (marks at) (marked_returns _ refl)

  returns_from : (f : Phase σ) (p : Process σ) → IsAlive f → p.phase ≡ f → ReturnsAlone p
  returns_from waiting p alive at = alone_after refl (expires at) (expired_returns _ refl)
  returns_from expired p alive at = expired_returns p at
  returns_from marked p alive at = marked_returns p at
  returns_from (answering m) p alive at = answer_returns m p at
  returns_from returned p alive at = (p, here, subst IsOver (sym at) tt, refl)
  returns_from crashed p alive at = absurd alive

  -- From every state of the two goroutines, as long as the process has not crashed: no sequence of
  -- steps is infinite; and there are steps that leave the handler's program where it is, so that a
  -- handler that never moves cannot hold them up, to a state where the middleware has returned, or
  -- its answer has panicked.
  pub race-Terminates : (p : Process σ) → IsAlive p.phase → Terminates p × ReturnsAlone p
  race-Terminates p alive =
      (ends p.handler p.phase p.writer p.state p.response, returns_from p.phase p alive refl)
