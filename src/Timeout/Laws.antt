-- ===== src/Timeout/Laws.antt =====
-- Single calls of the two goroutines.
pub mod Answer
pub mod Exclusive
pub mod Answering
pub mod Phases
pub mod Ending
use mathlib.Core.Path.{subst}
use txova_go_middleware.Base.{
  ℕ, ◌≡◌, ◌≢◌, ◌⊎◌, inl, inr, refl, sym, ap, ◌∙◌, Bool, true, false, ◌||◌, Option, none, some, Text,
  if◌then◌else◌, arith, Bool-cases,
}
use txova_go_middleware.Http.Program.{
  Request, Panic, Program, ret, throw, load, store, get_header, set_header, write_header, write,
  Handler,
}
use txova_go_middleware.Http.Server.{
  Response, Connection, is_sent, is_valid_code, put_status, put_bytes,
}
use txova_go_middleware.Timeout.Writer.{
  TimeoutWriter, Thread, plain_step, step_header, step_write, handler_step,
}

-- What holds of a result, if there is one.
abbrev pub OnSome : {A : Type 0} → (A → Type 0) → Option A → Type 0
OnSome P none = Unit
OnSome P (some a) = P a

-- What a call of the handler does: nothing but to the header map, or it writes, before the timeout.
pub data Effect {σ : Type 0} (t : TimeoutWriter) (w : Response)
    : TimeoutWriter × Thread σ → Type 0 where
  quiet :
      {t' : TimeoutWriter} {th : Thread σ}
      → t' ≡ t
      → th.response ≡ record w { header = th.response.header }
      → Effect t w (t', th)
  wrote :
      {t' : TimeoutWriter} {th : Thread σ}
      → t.timed_out ≡ false
      → t'.timed_out ≡ false
      → t'.wrote_header ≡ true
      → Effect t w (t', th)

pub true-ne-false : true ≢ false
true-ne-false h = cc

late-Effect :
    {σ : Type 0} (t : TimeoutWriter) (w : Response) (t' : TimeoutWriter) (th : Thread σ)
    → t.timed_out ≡ true
    → Effect t w (t', th)
    → (t' ≡ t) × (th.response ≡ record w { header = th.response.header })
late-Effect t w t' th late (quiet kept same) = (kept, same)
late-Effect t w t' th late (wrote early _ _) = absurd (true-ne-false (sym late ∙ early))

module _ (conn : Connection) {σ : Type 0} where
  on_step :
      (m : Program σ (Unit {0})) (t : TimeoutWriter) (s : σ) (w : Response)
      → OnSome (Effect t w) (handler_step conn m t s w)
  unfolding handler_step plain_step step_header step_write
  on_step (ret a) t s w = tt
  on_step (throw p) t s w = tt
  on_step (load k) t s w = quiet refl refl
  on_step (store s' m) t s w = quiet refl refl
  on_step (get_header k) t s w = quiet refl refl
  on_step (set_header key v m) t s w = quiet refl refl
  on_step (write_header code k) t s w = elim (Bool-cases (t.timed_out || t.wrote_header)) [
    | inl drops ↦ rw drops (quiet refl refl)
    | inr sends ↦ elim (Bool-cases (is_sent w.status || is_valid_code code)) [
      | inl good ↦ rw (sends, good) (wrote (ground arith) (ground arith) refl)
      | inr bad ↦ rw (sends, bad) (wrote (ground arith) (ground arith) refl)
    ]
  ]
  on_step (write b k) t s w = elim (Bool-cases t.timed_out) [
    | inl late ↦ rw late (quiet refl refl)
    | inr early ↦ elim (Bool-cases t.wrote_header) [
      | inl begun ↦ rw (early, begun) (wrote refl refl refl)
      | inr first ↦ rw (early, first) (wrote refl refl refl)
    ]
  ]

  -- Once the writer is marked as timed out, a call of the handler changes neither it nor the
  -- response, but for the map of headers, which the writer does not guard.
  pub late_call_dropped :
      (m : Program σ (Unit {0})) (t t' : TimeoutWriter) (s : σ) (w : Response) (th : Thread σ)
      → t.timed_out ≡ true
      → handler_step conn m t s w ≡ some (t', th)
      → (t' ≡ t) × (th.response ≡ record w { header = th.response.header })
  late_call_dropped m t t' s w th late moved =
      late-Effect t w t' th late (subst (OnSome (Effect t w)) moved (on_step m t s w))
