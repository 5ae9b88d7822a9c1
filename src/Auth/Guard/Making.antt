-- ===== src/Auth/Guard/Making.antt =====
-- auth/middleware.go: making the middleware. `compile` is `regexp.Compile` and `MatchString`.
pub mod Laws
use txova_go_middleware.Base.{
  Option, none, some, List, [], ◌∷◌, ℕ_eq, Text, Text_eq, codes, Result, ok, err,
}
use txova_go_middleware.Errors.{Core, app}
use txova_go_middleware.Http.Program.{Program, ret, ◌>>=◌, ◌>>◌, Middleware}
use txova_go_middleware.Http.Logging.{error, text, Entry, Logger, log, apply_options}
use txova_go_middleware.Auth.Guard.{Pattern, TokenValidator, Config, write_error, handle}

-- `regexp.Compile`: the pattern, or the text of the error.
abbrev pub Compile : Type 0
Compile = Text → Result Text Pattern

abbrev bad_pattern : Text → Text → Entry
bad_pattern pattern e = record {
  context = none;
  level = error;
  message = codes "failed to compile exclude pattern";
  attributes = (codes "pattern", text pattern) ∷ (codes "error", text e) ∷ [];
}

abbrev no_validator : Entry
no_validator = record {
  context = none;
  level = error;
  message = codes "auth middleware initialized with nil validator";
  attributes = [];
}

module _ (core : Core) where
  module _ {σ : Type 0} where
    -- `regexp.Compile` for each pattern; one that fails is logged and left out.
    compile_patterns : Compile → Option (Logger σ) → List Text → Program σ (List Pattern)
    compile_patterns compile logger [] = ret []
    compile_patterns compile logger (pattern ∷ patterns) = elim (compile pattern) [
      | ok re ↦ (compile_patterns compile logger patterns >>= λ res. ret (re ∷ res))
      | err e ↦ do log logger (bad_pattern pattern e); compile_patterns compile logger patterns
    ]

    -- What every request gets from a middleware without a validator.
    abbrev pub unavailable : Middleware σ
    unavailable next r =
        write_error core (app (core.internal_error (codes "authentication service unavailable")))

    build : Compile → Config core σ → Option (TokenValidator core σ) → Program σ (Middleware σ)
    unfolding compile_patterns
    build compile cfg none = do log cfg.logger no_validator; ret unavailable
    build compile cfg (some validate) = do
      patterns ← compile_patterns compile cfg.logger cfg.exclude_patterns
      ret (handle core cfg validate patterns)

    abbrev pub configure :
        Option (TokenValidator core σ) → List (Config core σ → Config core σ) → Config core σ
    configure validator opts = apply_options opts (record {
      validator = validator;
      logger = none;
      audit_logger = none;
      exclude_paths = [];
      exclude_patterns = [];
    })

    -- `Middleware(validator, opts...)`; making it may log.
    unfoldable pub new_middleware :
        Compile
        → Option (TokenValidator core σ)
        → List (Config core σ → Config core σ)
        → Program σ (Middleware σ)
    unfolding build apply_options
    new_middleware compile validator opts =
        let cfg = configure validator opts in build compile cfg cfg.validator
