-- ===== src/Timeout/Laws/Answer.antt =====
-- Whose answer the response is, and what the timeout's answer has come to.
use txova_go_middleware.Base.{
  ℕ, ◌≡◌, ◌≢◌, ◌⊎◌, inl, inr, refl, ◌∙◌, Bool, true, false, Option, none, some, text_eq,
}
use txova_go_middleware.Errors.{Core, http_status, request_timeout}
use txova_go_middleware.Errors.Reply.{set_json_headers}
use txova_go_middleware.Http.Headers.{Header}
use txova_go_middleware.Http.Program.{
  Program, ret, throw, load, store, get_header, set_header, write_header, write,
}
use txova_go_middleware.Http.Server.{Response}
use txova_go_middleware.Timeout.Race.{
  Phase, waiting, expired, marked, returned, crashed, answering, Process, timeout_answer,
}

-- The next status that the program sends is 503.
abbrev pub Sends503 : {σ : Type 0} → Program σ (Unit {0}) → Type 0
Sends503 (ret a) = ⊥
Sends503 (throw p) = ⊥
Sends503 {σ} (load k) = (s : σ) → Sends503 (k s)
Sends503 (store s m) = Sends503 m
Sends503 (get_header k) = (h : Header) → Sends503 (k h)
Sends503 (set_header key v m) = Sends503 m
Sends503 (write_header code k) = code ≡ 503
Sends503 (write b k) = ⊥

abbrev pub Timely : Response → {σ : Type 0} → Program σ (Unit {0}) → Type 0
Timely w m = (w.status ≡ some 503) ⊎ ((w.status ≡ none) × Sends503 m)

-- Whose answer the response is.
abbrev pub IsAnswering : {σ : Type 0} → Phase σ → Type 0
IsAnswering (answering m) = Unit
IsAnswering _ = ⊥

-- What the timeout's answer has come to.
abbrev pub Answers503 : {σ : Type 0} → Phase σ → Response → Type 0
Answers503 (answering m) w = Timely w m
Answers503 crashed w = (w.status ≡ none) ⊎ (w.status ≡ some 503)
Answers503 returned w = w.status ≡ some 503
Answers503 _ w = ⊥

-- Before the answer: the mark is set just when the waiting goroutine has set it.
abbrev pub Marks : {σ : Type 0} → Phase σ → Bool → Type 0
Marks marked late = late ≡ true
Marks crashed late = Unit
Marks (answering m) late = ⊥
Marks _ late = late ≡ false

pub data Answer {σ : Type 0} (p : Process σ) : Type 0 where
  undecided :
      p.writer.wrote_header ≡ false
      → p.response.status ≡ none
      → Marks p.phase p.writer.timed_out
      → Answer p
  by_handler : p.writer.wrote_header ≡ true → ¬ IsAnswering p.phase → Answer p
  by_timeout :
      p.writer.wrote_header ≡ false
      → p.writer.timed_out ≡ true
      → Answers503 p.phase p.response
      → Answer p

pub timeout_answer-Sends503 : (σ : Type 0) (core : Core) → Sends503 {σ = σ} (timeout_answer core)
unfolding timeout_answer set_json_headers request_timeout http_status text_eq
timeout_answer-Sends503 σ core = rw core.code-new refl

pub Marks-free : {σ : Type 0} (f : Phase σ) (late : Bool) → Marks f late → ¬ IsAnswering f
Marks-free waiting late m h = h
Marks-free expired late m h = h
Marks-free marked late m h = h
Marks-free returned late m h = h
Marks-free crashed late m h = h
Marks-free (answering n) late m h = m

pub Answers503-kept :
    {σ : Type 0} (f : Phase σ) (w w' : Response)
    → w'.status ≡ w.status
    → Answers503 f w
    → Answers503 f w'
Answers503-kept waiting w w' same h = h
Answers503-kept expired w w' same h = h
Answers503-kept marked w w' same h = h
Answers503-kept returned w w' same h = same ∙ h
Answers503-kept crashed w w' same (inl h) = inl (same ∙ h)
Answers503-kept crashed w w' same (inr h) = inr (same ∙ h)
Answers503-kept (answering m) w w' same (inl sent) = inl (same ∙ sent)
Answers503-kept (answering m) w w' same (inr (fresh, first)) = inr (same ∙ fresh, first)

pub sent_of_ended : (σ : Type 0) (w : Response) → Timely w {σ = σ} (ret tt) → w.status ≡ some 503
sent_of_ended σ w (inl sent) = sent
sent_of_ended σ w (inr (fresh, first)) = absurd first

-- No status but 503, at any time.
pub never_other :
    {σ : Type 0} (f : Phase σ) (w : Response)
    → Answers503 f w
    → (w.status ≡ none) ⊎ (w.status ≡ some 503)
never_other waiting w h = absurd h
never_other expired w h = absurd h
never_other marked w h = absurd h
never_other returned w h = inr h
never_other crashed w h = h
never_other (answering m) w (inl sent) = inr sent
never_other (answering m) w (inr (fresh, first)) = inl fresh

pub unsent-ne-sent : {status : Option ℕ} → status ≡ none → status ≢ some 503
unsent-ne-sent unsent sent = cc
