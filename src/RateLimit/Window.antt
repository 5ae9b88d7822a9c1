-- ===== src/RateLimit/Window.antt =====
-- What the limiter promises: a fixed window counter for each key, without a store behind it. A
-- window ends when the key's time to live is over.
use txova_go_middleware.Base.{
  ℕ, ◌+◌, ◌-◌, Bool, List, [], ◌∷◌, leb, ◌==◌, if◌then◌else◌, Text, Text_eq,
}
use txova_go_middleware.Base.Int.{ℤ, pos}
use txova_go_middleware.Context.{Context}

-- A request with a key is checked, or the window of a key ends.
pub data Event : Type 0 where
  ask : Context → Text → Event
  lapse : Text → Event

-- How many requests each key has had in its window.
abbrev pub Window : Type 0
Window = Text → ℕ

abbrev pub count_up : Window → Text → Window
count_up w key j = if key == j then w j + 1 else w j

abbrev pub restart : Window → Text → Window
restart w key j = if key == j then 0 else w j

-- What a request is told: whether it is allowed, and how many more are.
pub record Verdict : Type 0 where
  pub allowed : Bool
  pub remaining : ℤ

-- A request is allowed if with it the key's requests are at most the limit.
unfoldable pub decisions : (limit : ℕ) → Window → List Event → List Verdict
decisions limit w [] = []
decisions limit w (ask ctx key ∷ es) =
    record { allowed = leb (w key + 1) limit; remaining = pos (limit - (w key + 1)) }
    ∷ decisions limit (count_up w key) es
decisions limit w (lapse key ∷ es) = decisions limit (restart w key) es
