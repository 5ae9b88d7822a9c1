-- ===== src/Timeout/Laws/Phases.antt =====
-- The phases of the waiting goroutine go one way only.
use mathlib.Core.Path.{subst}
use mathlib.Core.WellFounded.{Acc}
use txova_go_middleware.Base.{◌≡◌, ◌⊎◌, inl, inr, sym, ◌||◌, none, some, Bool-cases}
use txova_go_middleware.Errors.{Core}
use txova_go_middleware.Http.Program.{
  invalid_code, Program, ret, throw, load, store, get_header, set_header, write_header, write,
}
use txova_go_middleware.Http.Server.{Response, Connection, is_sent, is_valid_code, delivered}
use txova_go_middleware.Timeout.Writer.{Thread, plain_step}
use txova_go_middleware.Timeout.Race.{
  Phase, waiting, expired, marked, returned, crashed, answering, timeout_answer,
}
use txova_go_middleware.Timeout.Laws.{OnSome}

module _ (core : Core) (conn : Connection) {σ : Type 0} where
  -- The phases that a step may lead to from the second one.
  abbrev pub Lower : Phase σ → Phase σ → Type 0
  Lower f crashed = ⊥
  Lower f returned = f ≡ crashed
  Lower f waiting = (f ≡ crashed) ⊎ (f ≡ returned) ⊎ (f ≡ expired)
  Lower f expired = (f ≡ crashed) ⊎ (f ≡ marked)
  Lower f marked = (f ≡ crashed) ⊎ (f ≡ returned) ⊎ (f ≡ answering (timeout_answer core))
  Lower f (answering m) =
      (f ≡ crashed)
      ⊎ (f ≡ returned)
      ⊎ ((s : σ) × (w : Response) × (th : Thread σ) × (plain_step conn m s w ≡ some th)
          × (f ≡ answering th.program))

  abbrev pub IsLow : Phase σ → Type 0
  IsLow f = Acc Lower f

  moved : {f g : Phase σ} → f ≡ g → IsLow g → IsLow f
  moved e low = subst IsLow (sym e) low

  crashed-IsLow : IsLow crashed
  crashed-IsLow = Acc.intro crashed (λ f h. elim h [ ])

  returned-IsLow : IsLow returned
  returned-IsLow = Acc.intro returned (λ f h. moved h crashed-IsLow)

  -- Of a program whose next calls all lead to low phases.
  answering-IsLow_of_next :
      (m : Program σ (Unit {0}))
      → ((s : σ) (w : Response)
          → OnSome (λ (th : Thread σ). IsLow (answering th.program)) (plain_step conn m s w))
      → IsLow (answering m)
  answering-IsLow_of_next m below = Acc.intro (answering m) λ f h. elim h [
    | inl e ↦ moved e crashed-IsLow
    | inr (inl e) ↦ moved e returned-IsLow
    | inr (inr (s, w, th, stepped, e)) ↦
        moved e (subst (OnSome (λ (x : Thread σ). IsLow (answering x.program))) stepped (below s w))
  ]

  answering-IsLow : (m : Program σ (Unit {0})) → IsLow (answering m)
  unfolding plain_step
  answering-IsLow (ret a) = answering-IsLow_of_next (ret a) (λ s w. tt)
  answering-IsLow (throw p) = answering-IsLow_of_next (throw p) (λ s w. tt)
  answering-IsLow (load k) = answering-IsLow_of_next (load k) (λ s w. answering-IsLow (k s))
  answering-IsLow (store s' m) = answering-IsLow_of_next (store s' m) (λ s w. answering-IsLow m)
  answering-IsLow (get_header k) =
      answering-IsLow_of_next (get_header k) (λ s w. answering-IsLow (k w.header))
  answering-IsLow (set_header key v m) =
      answering-IsLow_of_next (set_header key v m) (λ s w. answering-IsLow m)
  answering-IsLow (write_header code k) = answering-IsLow_of_next (write_header code k) λ s w.
      elim (Bool-cases (is_sent w.status || is_valid_code code)) [
        | inl good ↦ rw good (answering-IsLow (k none))
        | inr bad ↦ rw bad (answering-IsLow (k (some invalid_code)))
      ]
  answering-IsLow (write b k) =
      answering-IsLow_of_next (write b k)
        (λ s w. answering-IsLow (k (delivered conn w b).0 (delivered conn w b).1))

  marked-IsLow : IsLow marked
  marked-IsLow = Acc.intro marked λ f h. elim h [
    | inl e ↦ moved e crashed-IsLow
    | inr (inl e) ↦ moved e returned-IsLow
    | inr (inr e) ↦ moved e (answering-IsLow (timeout_answer core))
  ]

  expired-IsLow : IsLow expired
  expired-IsLow =
      Acc.intro expired
        λ f h. elim h [ inl e ↦ moved e crashed-IsLow | inr e ↦ moved e marked-IsLow ]

  pub phase-IsLow : (f : Phase σ) → IsLow f
  phase-IsLow crashed = crashed-IsLow
  phase-IsLow returned = returned-IsLow
  phase-IsLow (answering m) = answering-IsLow m
  phase-IsLow marked = marked-IsLow
  phase-IsLow expired = expired-IsLow
  phase-IsLow waiting = Acc.intro waiting λ f h. elim h [
    | inl e ↦ moved e crashed-IsLow
    | inr (inl e) ↦ moved e returned-IsLow
    | inr (inr e) ↦ moved e expired-IsLow
  ]
