-- ===== src/RequestId/Laws.antt =====
-- Which ID a request gets, and where it shows.
use txova_go_middleware.Base.{
  ◌≡◌, ◌≢◌, refl, some, List, [], Text, Text_eq, text_eq_refl, text_ne, text_eq, text_eq_iff,
  ne_of_text_eq, Bool-cases, ◌⊎◌, inl, inr,
}
use txova_go_middleware.Context.{request_id_from_context, with_request_id}
use txova_go_middleware.Http.Headers.{Header, header_get, header_set, header_get-set, canonical}
use txova_go_middleware.Http.Program.{Request, Handler, with_context}
use txova_go_middleware.Http.Server.{Response, Connection, returned, run, resume}
use txova_go_middleware.Http.Refusal.{run-bind_of_eq}
use txova_go_middleware.RequestId.{Config, Generator, configure, middleware}

-- What the next handler is given: a request with the ID in its context and else unchanged, and a
-- response with the ID under the configured header.
pub record Receives {σ : Type 0} (cfg : Config σ) (r r' : Request) (w w' : Response) (id : Text)
    : Type 0 where
  pub in_context : request_id_from_context (some r'.context) ≡ id
  pub rest_kept : record r' { context = r.context } ≡ r
  pub in_header : header_get w'.header cfg.header_name ≡ id
  pub body_kept : record w' { header = w.header } ≡ w

header_get-set_self : (h : Header) (key v : Text) → header_get (header_set h key v) key ≡ v
header_get-set_self h key v = rw (header_get-set, text_eq_refl (canonical key)) refl

module _ {σ : Type 0} (default_generator : Generator σ) (opts : List (Config σ → Config σ))
    (next : Handler σ) (r : Request) (conn : Connection) (s : σ) (w : Response) where
  -- The request and the response that carry the ID.
  abbrev pub tagged : Text → Request
  tagged id = with_context r (with_request_id (some r.context) id)

  abbrev pub stamped : Text → Response
  stamped id = record w {
    header = header_set w.header (configure default_generator opts).header_name id;
  }

  pub Receives-id :
      (id : Text) → Receives (configure default_generator opts) r (tagged id) w (stamped id) id
  unfolding with_request_id request_id_from_context
  Receives-id id = record {
    in_context = refl;
    rest_kept = refl;
    in_header = header_get-set_self w.header (configure default_generator opts).header_name id;
    body_kept = refl;
  }

  pub middleware_runs :
      let id = header_get r.header (configure default_generator opts).header_name in
      id ≢ []
      → run conn (middleware default_generator opts next r) s w
        ≡ run conn (next (tagged id)) s (stamped id)
  unfolding middleware run
  middleware_runs given =
      rw (text_ne (header_get r.header (configure default_generator opts).header_name) [] given)
        refl

  -- For a request without an ID, if the generator returns one and leaves the response alone, the
  -- next handler runs from where the generator ended, on the request with this ID in its context
  -- and on a response with this ID under the configured header; nothing else of the two changes.
  middleware_generates_id :
      let cfg = configure default_generator opts in
      (id : Text) (s' : σ)
      → header_get r.header cfg.header_name ≡ []
      → run conn cfg.generator s w ≡ record { end = returned id; state = s'; response = w }
      → (r' : Request) × (w' : Response) × Receives cfg r r' w w' id
        × (run conn (middleware default_generator opts next r) s w ≡ run conn (next r') s' w')
  unfolding middleware run resume
  middleware_generates_id id s' missing drawn =
      let cfg = configure default_generator opts in
      (
        tagged id,
        stamped id,
        Receives-id id,
        rw (missing, text_eq_refl []) (run-bind_of_eq conn cfg.generator _ s w drawn),
      )

  -- If the generator, run at once, returns an ID and leaves the response alone: the next handler
  -- runs on the request with an ID in its context, and on a response with this ID under the
  -- configured header, and nothing else of the two changes. Either the request carries an ID under
  -- that header, and it is this one, and the generator is not called; or it carries none, and the ID
  -- is the generator's, and the handler runs from where that ended.
  pub middleware_identifies :
      let cfg = configure default_generator opts in
      let carried = header_get r.header cfg.header_name in
      (drawn : Text) (s' : σ)
      → run conn cfg.generator s w ≡ record { end = returned drawn; state = s'; response = w }
      → (id : Text) × (from : σ) × (((carried ≢ []) × (id ≡ carried) × (from ≡ s))
          ⊎ ((carried ≡ []) × (id ≡ drawn) × (from ≡ s')))
        × (r' : Request) × (w' : Response) × Receives cfg r r' w w' id
        × (run conn (middleware default_generator opts next r) s w ≡ run conn (next r') from w')
  middleware_identifies drawn s' ran =
      let carried = header_get r.header (configure default_generator opts).header_name in
      elim (Bool-cases (text_eq carried [])) [
        | inl e ↦
            let missing = (text_eq_iff carried []).0 e in
            let (r', w', receives, runs) = middleware_generates_id drawn s' missing ran in
            (drawn, s', inr (missing, refl, refl), r', w', receives, runs)
        | inr n ↦
            let given = ne_of_text_eq carried [] n in
            (
              carried,
              s,
              inl (given, refl, refl),
              tagged carried,
              stamped carried,
              Receives-id carried,
              middleware_runs given,
            )
      ]
