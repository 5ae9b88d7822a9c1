-- ===== src/Recovery/Laws/Containment.antt =====
-- Recovery around any handler, however that ends.
use txova_go_middleware.Base.{
  ℕ, ◌≡◌, ◌⊎◌, inl, inr, refl, ap, sym, ◌∙◌, Option, none, some, List, Option-cases, Text,
}
use txova_go_middleware.Errors.{Core}
use txova_go_middleware.Errors.WriteJson.{Sends}
use txova_go_middleware.Http.Program.{Request, Panic, Handler}
use txova_go_middleware.Http.Server.{Response, Connection, End, returned, panicked, Run, run}
use txova_go_middleware.Http.Final.{SendsFinal}
use txova_go_middleware.Http.Logging.{Logger}
use txova_go_middleware.Recovery.{Config, configure, middleware}
use txova_go_middleware.Recovery.Laws.{
  HasStack, middleware_transparent, middleware_answers_panic, middleware_keeps_started,
}

pub End-cases : (e : End (Unit {0})) → (e ≡ returned tt) ⊎ ((p : Panic) × (e ≡ panicked p))
End-cases (returned tt) = inl refl
End-cases (panicked p) = inr (p, refl)

-- The run is the one that ends so.
pub run_ended :
    {σ A : Type 0} (ran : Run σ A) (e : End A)
    → ran.end ≡ e
    → ran ≡ record { end = e; state = ran.state; response = ran.response }
run_ended ran e ends = ap (λ x. record { end = x; state = ran.state; response = ran.response }) ends

-- What a run with recovery is, by how the run without it ends.
abbrev pub Recovered : {σ : Type 0} → Run σ (Unit {0}) → Run σ (Unit {0}) → Type 0
Recovered plain ran =
    ((plain.end ≡ returned tt) × (ran ≡ plain))
    ⊎ ((p : Panic) × (plain.end ≡ panicked p) × (plain.response.status ≡ none) × Sends 500 ran)
    ⊎ ((p : Panic) × (plain.end ≡ panicked p)
        × (status : ℕ) × (plain.response.status ≡ some status)
        × (ran.end ≡ returned tt)
        × (ran.response ≡ plain.response))

module _ (core : Core) (stack_trace : ℕ → Text) {σ : Type 0} (logger : Option (Logger σ))
    (opts : List (Config → Config)) (next : Handler σ) (r : Request) (conn : Connection) (s : σ)
    (w : Response) where
  -- Recovery with a stack size that is not negative, around a handler that sends final statuses
  -- only, on a response that has sent nothing before it, returns. If the handler returns, the run is
  -- that of the handler alone; if it panics before it has sent anything, the client gets the status
  -- 500; and if it panics after, the response stays as the handler left it.
  pub middleware_contains :
      SendsFinal (next r)
      → w.status ≡ none
      → HasStack (configure opts)
      → Recovered
          (run conn (next r) s w)
          (run conn (middleware core stack_trace logger opts next r) s w)
  middleware_contains final fresh has =
      let plain = run conn (next r) s w in
      elim (End-cases plain.end) [
        | inl ends ↦
            let same = run_ended plain (returned tt) ends in
            let recovered =
              middleware_transparent core stack_trace logger opts next r final conn s plain.state w
                plain.response fresh same in
            inl (ends, recovered ∙ sym same)
        | inr (p, ends) ↦
            let same = run_ended plain (panicked p) ends in
            elim (Option-cases plain.response.status) [
              | inl unsent ↦ inr (
                  inl (
                    p,
                    ends,
                    unsent,
                    middleware_answers_panic core stack_trace logger opts next r final conn s
                        plain.state w plain.response fresh has p same unsent,
                  ))
              | inr (status, sent) ↦
                  let (back, kept) =
                    middleware_keeps_started core stack_trace logger opts next r final conn s
                      plain.state w plain.response fresh has p status same sent in
                  inr (inr (p, ends, status, sent, back, kept))
            ]
      ]
