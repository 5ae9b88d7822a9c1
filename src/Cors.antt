-- ===== src/Cors.antt =====
-- mwcors/cors.go: the configuration of CORS. The behaviour is that of go-chi/cors, which is not part
-- of this repository: `handler` is `cors.Handler`.
pub mod Laws
use txova_go_middleware.Base.{Bool, true, List, [], ◌∷◌, Text, codes}
use txova_go_middleware.Base.Int.{ℤ, pos}
use txova_go_middleware.Http.Program.{Middleware}
use txova_go_middleware.Http.Logging.{apply_options}

pub record Config : Type 0 where
  pub allowed_origins : List Text
  pub allowed_methods : List Text
  pub allowed_headers : List Text
  pub exposed_headers : List Text
  pub max_age : ℤ
  pub allow_credentials : Bool

-- `DefaultConfig()`; the age is 24 hours.
abbrev pub default_config : Config
default_config = record {
  allowed_origins = [];
  allowed_methods =
      codes "GET"
      ∷ codes "POST"
      ∷ codes "PUT"
      ∷ codes "DELETE"
      ∷ codes "PATCH"
      ∷ codes "OPTIONS"
      ∷ [];
  allowed_headers = codes "Content-Type" ∷ codes "Authorization" ∷ codes "X-Request-ID" ∷ [];
  exposed_headers = codes "X-Request-ID" ∷ [];
  max_age = pos 86400;
  allow_credentials = true;
}

-- `DevelopmentConfig()`
abbrev pub development_config : Config
development_config = record default_config { allowed_origins = codes "*" ∷ [] }

abbrev pub with_allowed_origins : List Text → Config → Config
with_allowed_origins origins c = record c { allowed_origins = origins }

abbrev pub with_allowed_methods : List Text → Config → Config
with_allowed_methods methods c = record c { allowed_methods = methods }

abbrev pub with_allowed_headers : List Text → Config → Config
with_allowed_headers headers c = record c { allowed_headers = headers }

abbrev pub with_exposed_headers : List Text → Config → Config
with_exposed_headers headers c = record c { exposed_headers = headers }

abbrev pub with_max_age : ℤ → Config → Config
with_max_age seconds c = record c { max_age = seconds }

abbrev pub with_allow_credentials : Bool → Config → Config
with_allow_credentials allow c = record c { allow_credentials = allow }

-- The fields of `cors.Options` that the package sets; the others keep their zero values.
pub record Options : Type 0 where
  pub allowed_origins : List Text
  pub allowed_methods : List Text
  pub allowed_headers : List Text
  pub exposed_headers : List Text
  pub max_age : ℤ
  pub allow_credentials : Bool

module _ {σ : Type 0} (handler : Options → Middleware σ) where
  -- `MiddlewareWithConfig(cfg)`
  unfoldable pub middleware_with_config : Config → Middleware σ
  middleware_with_config cfg = handler (record {
    allowed_origins = cfg.allowed_origins;
    allowed_methods = cfg.allowed_methods;
    allowed_headers = cfg.allowed_headers;
    exposed_headers = cfg.exposed_headers;
    max_age = cfg.max_age;
    allow_credentials = cfg.allow_credentials;
  })

  -- `Middleware(opts...)`
  unfoldable pub middleware : List (Config → Config) → Middleware σ
  unfolding apply_options
  middleware opts =
      let cfg = apply_options opts default_config in
      handler (record {
        allowed_origins = cfg.allowed_origins;
        allowed_methods = cfg.allowed_methods;
        allowed_headers = cfg.allowed_headers;
        exposed_headers = cfg.exposed_headers;
        max_age = cfg.max_age;
        allow_credentials = cfg.allow_credentials;
      })
