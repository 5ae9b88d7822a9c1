-- ===== src/Tests/Cors.antt =====
-- A CORS middleware whose origins are set twice.
use txova_go_middleware.Base.{◌≡◌, true, [], ◌∷◌, Text, List, map, codes}
use txova_go_middleware.Base.Int.{pos}
use txova_go_middleware.Http.Program.{Middleware, set_header}
use txova_go_middleware.Cors.{Options, middleware}
use txova_go_middleware.Cors.Laws.{Setting, origins, age, option_of, middleware_last}

-- The first allowed origin, or `*` if there is none, is allowed.
abbrev first_or_star : List Text → Text
first_or_star [] = codes "*"
first_or_star (origin ∷ others) = origin

abbrev handler : {σ : Type 0} → Options → Middleware σ
handler o next r =
    set_header (codes "Access-Control-Allow-Origin") (first_or_star o.allowed_origins) (next r)

abbrev settings : List Setting
settings = origins (codes "https://a" ∷ []) ∷ age (pos 600) ∷ origins (codes "https://b" ∷ []) ∷ []

middleware_last_example :
    middleware (handler {σ = Unit {0}}) (map option_of settings)
    ≡ handler (record {
      allowed_origins = codes "https://b" ∷ [];
      allowed_methods =
          codes "GET"
          ∷ codes "POST"
          ∷ codes "PUT"
          ∷ codes "DELETE"
          ∷ codes "PATCH"
          ∷ codes "OPTIONS"
          ∷ [];
      allowed_headers = codes "Content-Type" ∷ codes "Authorization" ∷ codes "X-Request-ID" ∷ [];
      exposed_headers = codes "X-Request-ID" ∷ [];
      max_age = pos 600;
      allow_credentials = true;
    })
middleware_last_example = middleware_last handler settings
