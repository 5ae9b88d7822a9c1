-- ===== src/Maintenance/Laws.antt =====
-- Which requests maintenance mode lets through, and what the others are answered with.
pub mod Body
use txova_go_middleware.Base.{
  ◌≢◌, text_eq_refl, text_ne, ◌≡◌, refl, ◌⊎◌, Bool, true, false, Option, none, [], ◌∷◌, arith,
  Holds, Text, Text_eq, codes, contains_iff, Result, ok, err,
}
use txova_go_middleware.Errors.{Core}
use txova_go_middleware.ClientIp.{get_client_ip}
use txova_go_middleware.Http.Program.{Request, ◌>>=◌, Handler}
use txova_go_middleware.Http.Server.{Response, Connection, returned, run, resume}
use txova_go_middleware.Http.Refusal.{run-bind_of_eq}
use txova_go_middleware.Maintenance.{Config, bypasses_path, Reply, FlagStore, serve_status, check}

-- The requests that the middleware lets through without asking the store.
abbrev pub Bypasses : Config → Request → Type 0
Bypasses cfg r =
    (Holds (codes "/health" ∷ codes "/ready" ∷ cfg.bypass_paths) r.path)
    ⊎ Holds cfg.bypass_ips (get_client_ip r)

-- The message that a blocked request is shown, by what the store answered.
abbrev pub Shows : Config → Result Text Text → Text → Type 0
Shows cfg (err e) shown = shown ≡ cfg.default_message
Shows cfg (ok message) shown =
    ((message ≡ []) × (shown ≡ cfg.default_message)) ⊎ ((message ≢ []) × (shown ≡ message))

-- The end time that it is told.
abbrev pub Ends : {Time : Type 0} → Result Text (Option Time) → Option Time → Type 0
Ends (err e) known = known ≡ none
Ends (ok t) known = known ≡ t

module _ (core : Core) {Time : Type 0} (marshal : Reply Time → Result Text Text) {σ : Type 0} where
  module _ (cfg : Config) (store : FlagStore Time σ) (r : Request) (next : Handler σ) where
    -- A request to a bypass path (`/health` and `/ready` always are) or from a bypass address
    -- goes to the next handler as it came, whatever the store would say.
    check_bypass : Bypasses cfg r → check core marshal cfg store next r ≡ next r
    unfolding check bypasses_path
    check_bypass h = ground (
      arith,
      contains_iff (codes "/health" ∷ codes "/ready" ∷ cfg.bypass_paths) r.path,
      contains_iff cfg.bypass_ips (get_client_ip r),
    )

    module _ (blockable : ¬ Bypasses cfg r) (conn : Connection) (s : σ) (w : Response) where
      asks :
          check core marshal cfg store next r
          ≡ (store.is_enabled r.context >>= serve_status core marshal cfg store next r)
      unfolding check bypasses_path
      asks = ground (
        arith,
        contains_iff (codes "/health" ∷ codes "/ready" ∷ cfg.bypass_paths) r.path,
        contains_iff cfg.bypass_ips (get_client_ip r),
      )

      module _ (s1 : σ) (w1 : Response) where
        after_status :
            (answer : Result Text Bool)
            → run conn (store.is_enabled r.context) s w
              ≡ record { end = returned answer; state = s1; response = w1 }
            → run conn (check core marshal cfg store next r) s w
              ≡ run conn (serve_status core marshal cfg store next r answer) s1 w1
        unfolding resume
        after_status answer ran =
            rw asks (run-bind_of_eq conn (store.is_enabled r.context) _ s w ran)

        -- For a request that does not bypass the middleware the store is asked whether maintenance
        -- mode is on. If it says no, or fails, the next handler runs, from where the store ended,
        -- on the request as it came.
        pub check_passes :
            (answer : Result Text Bool)
            → answer ≢ ok true
            → run conn (store.is_enabled r.context) s w
              ≡ record { end = returned answer; state = s1; response = w1 }
            → run conn (check core marshal cfg store next r) s w ≡ run conn (next r) s1 w1
        unfolding serve_status
        check_passes (err e) off ran = after_status (err e) ran
        check_passes (ok false) off ran = after_status (ok false) ran
        check_passes (ok true) off ran = absurd (off refl)
