-- ===== src/Timeout.antt =====
-- timeout/timeout.go: a handler in a goroutine of its own, in a race with a deadline. Time is not
-- modelled: the deadline may pass, or the request be cancelled, before any step.
pub mod Writer
pub mod Race
pub mod Laws
use txova_go_middleware.Base.{List, [], ◌∷◌, Text, contains, Text_eq}
use txova_go_middleware.Base.Int.{ℤ, pos}
use txova_go_middleware.Http.Logging.{apply_options}

-- A `time.Duration` in nanoseconds; 30 seconds.
abbrev pub default_timeout : ℤ
default_timeout = pos 30000000000

pub record Config : Type 0 where
  pub timeout : ℤ
  pub skip_paths : List Text

pub with_timeout : ℤ → Config → Config
with_timeout d c = record c { timeout = d }

pub with_skip_paths : List Text → Config → Config
with_skip_paths paths c = record c { skip_paths = paths }

unfoldable pub configure : List (Config → Config) → Config
unfolding apply_options
configure opts = apply_options opts (record { timeout = default_timeout; skip_paths = [] })
