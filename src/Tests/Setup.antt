-- ===== src/Tests/Setup.antt =====
-- Making the authentication middleware, with one pattern that compiles and one that does not.
use txova_go_middleware.Base.{
  ℕ, ◌≡◌, ◌⊎◌, ◌==◌, Text_eq, none, some, [], ◌∷◌, codes, if◌then◌else◌, ok, err,
}
use txova_go_middleware.Http.Program.{Request, ret}
use txova_go_middleware.Http.Refusal.{Refuses}
use txova_go_middleware.Auth.Guard.{TokenValidator, with_exclude_patterns, handle}
use txova_go_middleware.Auth.Guard.Making.{Compile, unavailable, configure, new_middleware}
use txova_go_middleware.Auth.Guard.Making.Laws.{Makes, compiled, new_middleware_decides}
use txova_go_middleware.Tests.Samples.{core, driver}

-- Every pattern but "(" matches any path.
abbrev compile : Compile
compile pattern =
    if pattern == codes "(" then err (codes "missing )") else ok (λ path. path == path)

abbrev accepting : TokenValidator core ℕ
accepting ctx token = ret (ok (some driver))

new_middleware_decides_example :
    let cfg =
      configure core
        (some accepting)
        (with_exclude_patterns core (codes "^/public/" ∷ codes "(" ∷ []) ∷ []) in
    ((cfg.validator ≡ none)
      × Makes
          (new_middleware core compile
            (some accepting)
            (with_exclude_patterns core (codes "^/public/" ∷ codes "(" ∷ []) ∷ []))
          (unavailable core)
      × ((r : Request) → Refuses 500 (unavailable core {σ = ℕ}) r))
    ⊎ ((validate : TokenValidator core ℕ) × (cfg.validator ≡ some validate)
        × Makes
            (new_middleware core compile
              (some accepting)
              (with_exclude_patterns core (codes "^/public/" ∷ codes "(" ∷ []) ∷ []))
            (handle core cfg validate (compiled compile cfg.exclude_patterns)))
new_middleware_decides_example =
    new_middleware_decides core compile (some accepting)
      (with_exclude_patterns core (codes "^/public/" ∷ codes "(" ∷ []) ∷ [])
