-- ===== src/Errors/WriteJson.antt =====
-- Responses that `WriteJSON` of an `*errors.AppError` writes.
use txova_go_middleware.Base.{ℕ, ◌≡◌, ◌≤◌, ◌∙◌, Option, none, some, ap}
use txova_go_middleware.Http.Program.{WriteError, Program, ◌>>=◌}
use txova_go_middleware.Http.Server.{Response, Connection, returned, Run, run, resume}
use txova_go_middleware.Http.Refusal.{run-bind_of_eq}
use txova_go_middleware.Http.JsonReply.{IsTail}
use txova_go_middleware.Errors.{Core}

-- The run ended normally and sent the status.
abbrev pub Sends : {σ : Type 0} → ℕ → Run σ (Unit {0}) → Type 0
Sends status ran = (ran.end ≡ returned tt) × (ran.response.status ≡ some status)

module _ (core : Core) {σ : Type 0} (e : core.AppError) (status : ℕ) (same : core.status e ≡ status)
    (low : 200 ≤ status) (high : status ≤ 999) (k : Option WriteError → Program σ (Unit {0}))
    (tail : (failed : Option WriteError) → IsTail (k failed)) where
  pub write_json-Sends :
      (conn : Connection) (s : σ) (w : Response)
      → w.status ≡ none
      → Sends status (run conn (do failed ← core.write_json e; k failed) s w)
  unfolding resume
  write_json-Sends conn s w fresh =
      let (failed, w', sent, ran) =
        core.run-write_json e conn s w fresh (rw same low) (rw same high) in
      let (ends, kept, headers) = tail failed conn s w' status (sent ∙ ap some same) in
      rw (run-bind_of_eq conn (core.write_json e) k s w ran) (ends, kept)
