-- ===== src/RateLimit/Laws/Refinement.antt =====
-- The limiter is the fixed window counter of RateLimit.Window.
use txova_go_middleware.Base.{
  ℕ, ◌+◌, ◌≡◌, ◌<◌, ◌^◌, refl, ◌∙◌, Option, none, some, List, [], ◌∷◌, ◌++◌, arith, Text_eq,
  text_eq, ℕ_eq, Bool-cases, inl, inr, Text, codes, length, map,
}
use txova_go_middleware.Base.Int.{ℤ, pos, ◌≤ℤ◌}
use txova_go_middleware.Context.{Context}
use txova_go_middleware.Http.Server.{new_response, Connection, End, returned, panicked, run}
use txova_go_middleware.RateLimit.{Limiter, Outcome, second, check}
use txova_go_middleware.RateLimit.Window.{
  Event, ask, lapse, Window, count_up, restart, Verdict, decisions,
}
use txova_go_middleware.RateLimit.Laws.Store.{Counters, Counted, check-Tells}

text_eq-append : (p s t : Text) → text_eq (p ++ s) (p ++ t) ≡ text_eq s t
unfolding text_eq
text_eq-append [] s t = refl
text_eq-append (c ∷ p) s t = ground (arith, text_eq-append p s t)

-- What an ended check tells; `none` if it panicked.
abbrev pub verdict_of : End Outcome → Option Verdict
verdict_of (returned o) = some (record { allowed = o.allowed; remaining = o.remaining })
verdict_of (panicked p) = none

module _ {σ : Type 0} (now : σ → ℤ) (l : Limiter σ) (redis : Counters l.client)
    (conn : Connection) where
  -- What the checks of a limiter tell, one after another.
  unfoldable pub verdicts : List Event → σ → List (Option Verdict)
  verdicts [] s = []
  verdicts (ask ctx key ∷ es) s =
      let r = run conn (check now l ctx key) s new_response in
      verdict_of r.end ∷ verdicts es r.state
  verdicts (lapse key ∷ es) s = verdicts es (redis.lapse (l.key_prefix ++ codes ":" ++ key) s)

  -- The counters under the limiter's prefix are those of the window.
  abbrev pub Mirrors : σ → Window → Type 0
  Mirrors s w = (key : Text) → redis.count s (l.key_prefix ++ codes ":" ++ key) ≡ w key

  same_key :
      (key j : Text)
      → text_eq (l.key_prefix ++ codes ":" ++ key) (l.key_prefix ++ codes ":" ++ j) ≡ text_eq key j
  same_key key j = text_eq-append (l.key_prefix ++ codes ":") key j

  lapse-Mirrors :
      (key : Text) (s : σ) (w : Window)
      → Mirrors s w
      → Mirrors (redis.lapse (l.key_prefix ++ codes ":" ++ key) s) (restart w key)
  lapse-Mirrors key s w h j = rw (redis.count-lapse, same_key key j, h j) refl

  module _ (limit : ℕ) (is_limit : l.limit ≡ pos limit) (small : limit < 2 ^ 63)
      (lasts : pos second ≤ℤ l.window) where
    count_up-Mirrors :
        (key : Text) (s s' : σ) (w : Window)
        → Mirrors s w
        → Counted now l redis limit is_limit small lasts conn
            (l.key_prefix ++ codes ":" ++ key)
            s
            s'
        → Mirrors s' (count_up w key)
    count_up-Mirrors key s s' w h counted j =
        counted (l.key_prefix ++ codes ":" ++ j) ∙ rw (same_key key j, h j) refl

    -- There is room for the requests to come.
    abbrev pub HasRoom : Window → List Event → Type 0
    HasRoom w es = (key : Text) → w key + length es < 2 ^ 63

    ask-HasRoom :
        (ctx : Context) (key : Text) (w : Window) (es : List Event)
        → HasRoom w (ask ctx key ∷ es)
        → HasRoom (count_up w key) es
    ask-HasRoom ctx key w es room j = elim (Bool-cases (text_eq key j)) [
      | inl same ↦ rw same (omega (arith, room j))
      | inr other ↦ rw other (omega (arith, room j))
    ]

    lapse-HasRoom :
        (key : Text) (w : Window) (es : List Event)
        → HasRoom w (lapse key ∷ es)
        → HasRoom (restart w key) es
    lapse-HasRoom key w es room j = elim (Bool-cases (text_eq key j)) [
      | inl same ↦ rw same (omega (arith, room j))
      | inr other ↦ rw other (omega (arith, room j))
    ]

    -- A limiter whose limit is from 0 below 2^63 and whose window is one second at least, over a
    -- client that counts as Redis does, with scripts or without: for any sequence of requests and
    -- of counters that expire, from any state of the counters that leaves room below 2^63, the
    -- checks return what the fixed window counter decides, and tell the number that remains.
    pub verdicts_refine :
        (es : List Event) (s : σ) (w : Window)
        → Mirrors s w
        → HasRoom w es
        → verdicts es s ≡ map some (decisions limit w es)
    unfolding verdicts decisions
    verdicts_refine [] s w h room = refl
    verdicts_refine (lapse key ∷ es) s w h room =
        verdicts_refine es (redis.lapse (l.key_prefix ++ codes ":" ++ key) s) (restart w key)
          (lapse-Mirrors key s w h) (lapse-HasRoom key w es room)
    verdicts_refine (ask ctx key ∷ es) s w h room =
        let full = l.key_prefix ++ codes ":" ++ key in
        let (o, s', ran, allowed, remaining, counted) =
          check-Tells now l redis limit is_limit small lasts conn ctx key s new_response
            (rw (h key) (omega (arith, room key))) in
        let rest =
          verdicts_refine es s' (count_up w key) (count_up-Mirrors key s s' w h counted)
            (ask-HasRoom ctx key w es room) in
        rw (ran, allowed, remaining, h key, rest) refl
