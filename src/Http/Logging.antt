-- ===== src/Http/Logging.antt =====
-- The loggers of txova-go-core and txova-go-security, which are not part of this repository: a
-- logger is what an entry does to the shared state. A nil logger is `none`.
use txova_go_middleware.Base.{Bool, ◌≡◌, refl, Option, none, some, List, [], ◌∷◌, ◌++◌, Text}
use txova_go_middleware.Base.Int.{ℤ}
use txova_go_middleware.Context.{Context}
use txova_go_middleware.Http.Program.{Panic, Program, ret, load, store}

pub data Level : Type 0 where
  info warn error : Level

-- The value of an attribute.
pub data Attribute : Type 0 where
  text : Text → Attribute
  number : ℤ → Attribute
  flag : Bool → Attribute
  panic_value : Panic → Attribute

-- `context` is that of `logger.WithContext`, if it was called.
pub record Entry : Type 0 where
  pub context : Option Context
  pub level : Level
  pub message : Text
  pub attributes : List (Text × Attribute)

abbrev pub Logger : Type 0 → Type 0
Logger σ = Entry → σ → σ

-- The calls of `audit.Logger`.
pub data AuditEvent : Type 0 where
  permission_denied : Context → (user_id path method ip : Text) → AuditEvent
  login_failed : Context → (user_id ip user_agent reason : Text) → AuditEvent

abbrev pub AuditLogger : Type 0 → Type 0
AuditLogger σ = AuditEvent → σ → σ

-- `if logger != nil { logger.… }`
unfoldable pub log : {σ E : Type 0} → Option (E → σ → σ) → E → Program σ (Unit {0})
log none e = ret tt
log (some f) e = load (λ s. store (f e s) (ret tt))

-- Functional options: `for _, opt := range opts { opt(&cfg) }`.
unfoldable pub apply_options : {C : Type 0} → List (C → C) → C → C
apply_options [] cfg = cfg
apply_options (opt ∷ opts) cfg = apply_options opts (opt cfg)

pub apply_options-append :
    {C : Type 0} (opts more : List (C → C)) (c : C)
    → apply_options (opts ++ more) c ≡ apply_options more (apply_options opts c)
unfolding apply_options
apply_options-append [] more c = refl
apply_options-append (opt ∷ opts) more c = apply_options-append opts more (opt c)
