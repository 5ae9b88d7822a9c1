-- ===== src/Timeout/Laws/Exclusive.antt =====
-- Of the handler and the timeout at most one answers.
use mathlib.Core.Path.{subst}
use txova_go_middleware.Base.{◌≡◌, ◌⊎◌, inl, inr, refl, sym, ap, ◌∙◌, true, false, none, some}
use txova_go_middleware.Errors.{Core}
use txova_go_middleware.Http.Program.{
  Request, Program, ret, throw, load, store, get_header, set_header, write_header, write, Handler,
}
use txova_go_middleware.Http.Server.{Response, Connection, put_status, put_bytes}
use txova_go_middleware.Timeout.Writer.{TimeoutWriter, Thread, plain_step}
use txova_go_middleware.Timeout.Race.{
  returned, Process, start, Step, handles, panics, finishes, expires, marks, decides, answers,
  answered, Steps, here, more,
}
use txova_go_middleware.Timeout.Laws.{OnSome, Effect, quiet, wrote, on_step, true-ne-false}
use txova_go_middleware.Timeout.Laws.Answer.{
  Answer, undecided, by_handler, by_timeout, Timely, IsAnswering, Answers503, Marks,
  timeout_answer-Sends503, Marks-free, Answers503-kept, sent_of_ended, never_other, unsent-ne-sent,
}

-- Either the handler has written, and the timeout's answer is not being written; or it has not, and
-- no status was sent but the timeout's, which was sent if the middleware has returned after the
-- timeout.
abbrev pub Excludes : {σ : Type 0} → Process σ → Type 0
Excludes p =
    ((p.writer.wrote_header ≡ true) × (¬ IsAnswering p.phase))
    ⊎ ((p.writer.wrote_header ≡ false)
        × (((p.response.status ≡ none) × (¬ ((p.writer.timed_out ≡ true) × (p.phase ≡ returned))))
            ⊎ ((p.writer.timed_out ≡ true) × (p.response.status ≡ some 503))))

module _ (core : Core) (conn : Connection) {σ : Type 0} where
  -- The program goes on as `Timely`.
  on_answer :
      (m : Program σ (Unit {0})) (s : σ) (w : Response)
      → Timely w m
      → OnSome (λ (th : Thread σ). Timely th.response th.program) (plain_step conn m s w)
  unfolding plain_step put_status put_bytes
  on_answer (ret a) s w h = tt
  on_answer (throw p) s w h = tt
  on_answer (load k) s w (inl sent) = inl sent
  on_answer (load k) s w (inr (fresh, first)) = inr (fresh, first s)
  on_answer (store s' m) s w h = h
  on_answer (get_header k) s w (inl sent) = inl sent
  on_answer (get_header k) s w (inr (fresh, first)) = inr (fresh, first w.header)
  on_answer (set_header key v m) s w h = h
  on_answer (write_header code k) s w (inl sent) = rw sent (inl refl)
  on_answer (write_header code k) s w (inr (fresh, first)) = rw (fresh, first) (inl refl)
  on_answer (write b k) s w (inl sent) = rw sent (inl refl)
  on_answer (write b k) s w (inr (fresh, first)) = absurd first

  -- A call of the handler keeps whose answer it is, and may make it the handler's.
  handler_keeps :
      (p : Process σ) (t : TimeoutWriter) (th : Thread σ)
      → Effect p.writer p.response (t, th)
      → Answer p
      → Answer
          (record p { handler = th.program; writer = t; state = th.state; response = th.response })
  handler_keeps p t th (quiet kept same) (undecided unwritten fresh m) =
      undecided (ap (λ (x : TimeoutWriter). x.wrote_header) kept ∙ unwritten)
        (ap (λ (x : Response). x.status) same ∙ fresh)
        (subst (λ (x : TimeoutWriter). Marks p.phase x.timed_out) (sym kept) m)
  handler_keeps p t th (quiet kept same) (by_handler written free) =
      by_handler (ap (λ (x : TimeoutWriter). x.wrote_header) kept ∙ written) free
  handler_keeps p t th (quiet kept same) (by_timeout unwritten late answer) =
      by_timeout (ap (λ (x : TimeoutWriter). x.wrote_header) kept ∙ unwritten)
        (ap (λ (x : TimeoutWriter). x.timed_out) kept ∙ late)
        (Answers503-kept p.phase p.response th.response (ap (λ (x : Response). x.status) same)
          answer)
  handler_keeps p t th (wrote early still written) (undecided unwritten fresh m) =
      by_handler written (Marks-free p.phase p.writer.timed_out m)
  handler_keeps p t th (wrote early still written) (by_handler begun free) = by_handler written free
  handler_keeps p t th (wrote early still written) (by_timeout unwritten late answer) =
      absurd (true-ne-false (sym late ∙ early))

  Step-keeps : {p q : Process σ} → Step core conn p q → Answer p → Answer q
  Step-keeps {p} (handles {t} {th} moved) a =
      handler_keeps p t th
        (subst (OnSome (Effect p.writer p.response)) moved
          (on_step conn p.handler p.writer p.state p.response))
        a
  Step-keeps {p} (panics gone alive) (undecided unwritten fresh m) = undecided unwritten fresh tt
  Step-keeps {p} (panics gone alive) (by_handler written free) = by_handler written (λ h. h)
  Step-keeps {p} (panics gone alive) (by_timeout unwritten late answer) =
      by_timeout unwritten late (never_other p.phase p.response answer)
  Step-keeps {p} (finishes gone at) (undecided unwritten fresh m) =
      undecided unwritten fresh (subst (λ f. Marks f p.writer.timed_out) at m)
  Step-keeps {p} (finishes gone at) (by_handler written free) = by_handler written (λ h. h)
  Step-keeps {p} (finishes gone at) (by_timeout unwritten late answer) =
      absurd (subst (λ f. Answers503 f p.response) at answer)
  Step-keeps {p} (expires at) (undecided unwritten fresh m) =
      undecided unwritten fresh (subst (λ f. Marks f p.writer.timed_out) at m)
  Step-keeps {p} (expires at) (by_handler written free) = by_handler written (λ h. h)
  Step-keeps {p} (expires at) (by_timeout unwritten late answer) =
      absurd (subst (λ f. Answers503 f p.response) at answer)
  Step-keeps {p} (marks at) (undecided unwritten fresh m) = undecided unwritten fresh refl
  Step-keeps {p} (marks at) (by_handler written free) = by_handler written (λ h. h)
  Step-keeps {p} (marks at) (by_timeout unwritten late answer) =
      absurd (subst (λ f. Answers503 f p.response) at answer)
  Step-keeps {p} (decides at) (undecided unwritten fresh m) =
      by_timeout unwritten (subst (λ f. Marks f p.writer.timed_out) at m)
        (rw unwritten (inr (fresh, timeout_answer-Sends503 σ core)))
  Step-keeps {p} (decides at) (by_handler written free) = by_handler written (rw written (λ h. h))
  Step-keeps {p} (decides at) (by_timeout unwritten late answer) =
      absurd (subst (λ f. Answers503 f p.response) at answer)
  Step-keeps {p} (answers at moved) (undecided unwritten fresh m) =
      absurd (subst (λ f. Marks f p.writer.timed_out) at m)
  Step-keeps {p} (answers at moved) (by_handler written free) =
      absurd (free (subst IsAnswering (sym at) tt))
  Step-keeps {p} (answers {m} {th} at moved) (by_timeout unwritten late answer) =
      by_timeout unwritten late (
        subst (OnSome (λ (x : Thread σ). Timely x.response x.program)) moved
          (on_answer m p.state p.response (subst (λ f. Answers503 f p.response) at answer)))
  Step-keeps {p} (answered at) (undecided unwritten fresh m) =
      absurd (subst (λ f. Marks f p.writer.timed_out) at m)
  Step-keeps {p} (answered at) (by_handler written free) =
      absurd (free (subst IsAnswering (sym at) tt))
  Step-keeps {p} (answered at) (by_timeout unwritten late answer) =
      by_timeout unwritten late
        (sent_of_ended σ p.response (subst (λ f. Answers503 f p.response) at answer))

  Steps-keep : {p q : Process σ} → Steps core conn p q → Answer p → Answer q
  Steps-keep here a = a
  Steps-keep (more before last) a = Step-keeps last (Steps-keep before a)

  Answer-Excludes : (p : Process σ) → Answer p → Excludes p
  Answer-Excludes p (undecided unwritten fresh m) = inr (
    unwritten,
    inl (
      fresh,
      λ (late, at). true-ne-false (sym late ∙ subst (λ f. Marks f p.writer.timed_out) at m),
    ),
  )
  Answer-Excludes p (by_handler written free) = inl (written, free)
  Answer-Excludes p (by_timeout unwritten late answer) = inr (
    unwritten,
    elim (never_other p.phase p.response answer) [
      | inl fresh ↦ inl (
        fresh,
        λ (marked_late, at). unsent-ne-sent fresh (subst (λ f. Answers503 f p.response) at answer),
      )
      | inr sent ↦ inr (late, sent)
    ],
  )

  -- Whatever the order in which the handler, the deadline and the waiting goroutine move, starting
  -- from a response that has sent nothing: either the handler has written, and then the timeout's
  -- answer is not being written; or it has not, and then no status was sent, and the middleware has
  -- not returned on a timeout, or the writer is timed out and the timeout's 503 was sent.
  pub one_answer :
      (next : Handler σ) (r : Request) (s : σ) (w : Response) (p : Process σ)
      → w.status ≡ none
      → Steps core conn (start core next r s w) p
      → Excludes p
  one_answer next r s w p fresh reached =
      Answer-Excludes p (Steps-keep reached (undecided refl fresh refl))
