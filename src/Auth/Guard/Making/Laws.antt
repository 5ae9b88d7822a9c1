-- ===== src/Auth/Guard/Making/Laws.antt =====
-- What making the middleware gives.
use txova_go_middleware.Base.{
  ◌⊎◌, Option-cases, ◌≡◌, refl, ap, sym, ◌∙◌, Option, none, some, List, [], ◌∷◌, arith, Text,
  text_eq, codes, ok, err, Result-cases, inl, inr,
}
use txova_go_middleware.Errors.{Core, app, http_status}
use txova_go_middleware.Http.Program.{Request, Program, ret, ◌>>=◌, ◌>>◌}
use txova_go_middleware.Http.Server.{Response, Connection, returned, Run, run, resume}
use txova_go_middleware.Http.Logging.{Logger, log}
use txova_go_middleware.Http.Refusal.{
  Refuses, Refuses-of_eq, log-IsSilent, run_after_silent, run-bind_of_eq,
}
use txova_go_middleware.Auth.Guard.{Pattern, TokenValidator, Config, error_status, handle}
use txova_go_middleware.Auth.Guard.Making.{
  Compile, bad_pattern, no_validator, compile_patterns, unavailable, build, configure,
  new_middleware,
}
use txova_go_middleware.Auth.Guard.Laws.{write_error-Answers}

-- The patterns that compile, in their order.
abbrev pub compiled : Compile → List Text → List Pattern
compiled compile [] = []
compiled compile (pattern ∷ patterns) = elim (compile pattern) [
  | ok re ↦ re ∷ compiled compile patterns
  | err e ↦ compiled compile patterns
]

-- The program returns the value and leaves the response alone.
abbrev pub Makes : {σ A : Type 0} → Program σ A → A → Type 0
Makes {σ} m a =
    (conn : Connection) (s : σ) (w : Response)
    → (s' : σ) × (run conn m s w ≡ record { end = returned a; state = s'; response = w })

compiled_first :
    (compile : Compile) (p : Text) (re : Pattern) (patterns : List Text)
    → compile p ≡ ok re
    → compiled compile (p ∷ patterns) ≡ re ∷ compiled compile patterns
compiled_first compile p re patterns good = rw (good, compiled) refl

compiled_rest :
    (compile : Compile) (p e : Text) (patterns : List Text)
    → compile p ≡ err e
    → compiled compile (p ∷ patterns) ≡ compiled compile patterns
compiled_rest compile p e patterns bad = rw (bad, compiled) refl

abbrev ran_to : {σ A : Type 0} → σ → Response → A → Run σ A
ran_to s w a = record { end = returned a; state = s; response = w }

internal_status : (core : Core) (m : Text) → error_status core (core.internal_error m) ≡ 500
unfolding http_status text_eq
internal_status core m = rw core.code-internal_error (core.status-internal_error m)

module _ (core : Core) {σ : Type 0} where
  unavailable-Refuses : (r : Request) → Refuses 500 (unavailable core {σ = σ}) r
  unavailable-Refuses r =
      Refuses-of_eq 500 (unavailable core) r _ (λ next. refl)
        (write_error-Answers core
          (app (core.internal_error (codes "authentication service unavailable"))) 500
          (rw core.from_error-app
            (internal_status core (codes "authentication service unavailable")))
          (omega arith) (omega arith))

  pattern_compiles :
      (compile : Compile) (logger : Option (Logger σ)) (p : Text) (re : Pattern)
      (patterns : List Text)
      → compile p ≡ ok re
      → compile_patterns core compile logger (p ∷ patterns)
        ≡ (compile_patterns core compile logger patterns >>= λ res. ret (re ∷ res))
  unfolding compile_patterns
  pattern_compiles compile logger p re patterns good = rw (good, compile_patterns) refl

  pattern_fails :
      (compile : Compile) (logger : Option (Logger σ)) (p e : Text) (patterns : List Text)
      → compile p ≡ err e
      → compile_patterns core compile logger (p ∷ patterns)
        ≡ (log logger (bad_pattern p e) >> compile_patterns core compile logger patterns)
  unfolding compile_patterns
  pattern_fails compile logger p e patterns bad = rw (bad, compile_patterns) refl

  compile_patterns-Makes :
      (compile : Compile) (logger : Option (Logger σ)) (patterns : List Text)
      → Makes (compile_patterns core compile logger patterns) (compiled compile patterns)
  unfolding compile_patterns run resume
  compile_patterns-Makes compile logger [] conn s w = (s, refl)
  compile_patterns-Makes compile logger (p ∷ patterns) conn s w = elim (Result-cases (compile p)) [
    | inl (re, good) ↦
        let (s', ran) = compile_patterns-Makes compile logger patterns conn s w in
        (
          s',
          ap (λ m. run conn m s w) (pattern_compiles compile logger p re patterns good)
              ∙ run-bind_of_eq conn (compile_patterns core compile logger patterns) _ s w ran
              ∙ ap (ran_to s' w) (sym (compiled_first compile p re patterns good)),
        )
    | inr (e, bad) ↦
        let note : Program σ (Unit {0}) = log logger (bad_pattern p e) in
        let (s', ran) =
          compile_patterns-Makes compile logger patterns conn (run conn note s w).state w in
        (
          s',
          ap (λ m. run conn m s w) (pattern_fails compile logger p e patterns bad)
              ∙ run_after_silent note (log-IsSilent logger (bad_pattern p e))
                  (compile_patterns core compile logger patterns) conn s w
              ∙ ran
              ∙ ap (ran_to s' w) (sym (compiled_rest compile p e patterns bad)),
        )
  ]

  without_validator :
      (compile : Compile) (validator : Option (TokenValidator core σ))
      (opts : List (Config core σ → Config core σ))
      → (configure core validator opts).validator ≡ none
      → Makes (new_middleware core compile validator opts) (unavailable core)
  unfolding new_middleware build run resume
  without_validator compile validator opts missing conn s w =
      let cfg = configure core validator opts in
      let note : Program σ (Unit {0}) = log cfg.logger no_validator in
      (
        (run conn note s w).state,
        ap (λ v. run conn (build core compile cfg v) s w) missing
            ∙ run_after_silent note (log-IsSilent cfg.logger no_validator) (ret (unavailable core))
                conn s w,
      )

  with_validator :
      (compile : Compile) (validator : Option (TokenValidator core σ))
      (opts : List (Config core σ → Config core σ)) (validate : TokenValidator core σ)
      → let cfg = configure core validator opts in
        cfg.validator ≡ some validate
        → Makes
            (new_middleware core compile validator opts)
            (handle core cfg validate (compiled compile cfg.exclude_patterns))
  unfolding new_middleware build run resume
  with_validator compile validator opts validate given conn s w =
      let cfg = configure core validator opts in
      let (s', ran) = compile_patterns-Makes compile cfg.logger cfg.exclude_patterns conn s w in
      (
        s',
        ap (λ v. run conn (build core compile cfg v) s w) given
            ∙ run-bind_of_eq conn (compile_patterns core compile cfg.logger cfg.exclude_patterns) _
                s w ran,
      )

  -- Making the middleware returns, and sends nothing. Either there is no validator in the
  -- configuration, and it gives a middleware that refuses every request with 500; or there is one,
  -- and it gives the middleware with that validator and the patterns that compile, in their order.
  pub new_middleware_decides :
      (compile : Compile) (validator : Option (TokenValidator core σ))
      (opts : List (Config core σ → Config core σ))
      → let cfg = configure core validator opts in
        ((cfg.validator ≡ none)
          × Makes (new_middleware core compile validator opts) (unavailable core)
          × ((r : Request) → Refuses 500 (unavailable core {σ = σ}) r))
        ⊎ ((validate : TokenValidator core σ) × (cfg.validator ≡ some validate)
            × Makes
                (new_middleware core compile validator opts)
                (handle core cfg validate (compiled compile cfg.exclude_patterns)))
  new_middleware_decides compile validator opts =
      elim (Option-cases (configure core validator opts).validator) [
        | inl missing ↦
            inl (missing, without_validator compile validator opts missing, unavailable-Refuses)
        | inr (validate, given) ↦
            inr (validate, given, with_validator compile validator opts validate given)
      ]
