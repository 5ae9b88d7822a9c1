-- ===== src/Cors/Laws.antt =====
-- What the options give to go-chi/cors.
use txova_go_middleware.Base.{
  ◌≡◌, refl, Bool, true, Option, none, some, List, [], ◌∷◌, map, Text, codes, ◌*◌,
}
use txova_go_middleware.Base.Int.{ℤ, pos}
use txova_go_middleware.Http.Program.{Middleware}
use txova_go_middleware.Http.Logging.{apply_options}
use txova_go_middleware.Cors.{
  Config, Options, default_config, with_allowed_origins, with_allowed_methods, with_allowed_headers,
  with_exposed_headers, with_max_age, with_allow_credentials, middleware_with_config, middleware,
}

-- A call of one of the package's options.
pub data Setting : Type 0 where
  origins methods headers exposed : List Text → Setting
  age : ℤ → Setting
  credentials : Bool → Setting

abbrev pub option_of : Setting → Config → Config
option_of (origins x) = with_allowed_origins x
option_of (methods x) = with_allowed_methods x
option_of (headers x) = with_allowed_headers x
option_of (exposed x) = with_exposed_headers x
option_of (age x) = with_max_age x
option_of (credentials x) = with_allow_credentials x

-- What a setting sets, by kind.
abbrev pub origins_of : Setting → Option (List Text)
origins_of (origins x) = some x
origins_of _ = none

abbrev pub methods_of : Setting → Option (List Text)
methods_of (methods x) = some x
methods_of _ = none

abbrev pub headers_of : Setting → Option (List Text)
headers_of (headers x) = some x
headers_of _ = none

abbrev pub exposed_of : Setting → Option (List Text)
exposed_of (exposed x) = some x
exposed_of _ = none

abbrev pub age_of : Setting → Option ℤ
age_of (age x) = some x
age_of _ = none

abbrev pub credentials_of : Setting → Option Bool
credentials_of (credentials x) = some x
credentials_of _ = none

abbrev pub or_else : {A : Type 0} → A → Option A → A
or_else default none = default
or_else default (some x) = x

-- The value of the last setting of a kind, or the default if there is none.
abbrev pub last_of : {A : Type 0} → (Setting → Option A) → A → List Setting → A
last_of pick default [] = default
last_of pick default (x ∷ xs) = last_of pick (or_else default (pick x)) xs

-- The options of go-chi/cors where each value is the last that was set, or that of a configuration.
abbrev pub last_set : Config → List Setting → Options
last_set c xs = record {
  allowed_origins = last_of origins_of c.allowed_origins xs;
  allowed_methods = last_of methods_of c.allowed_methods xs;
  allowed_headers = last_of headers_of c.allowed_headers xs;
  exposed_headers = last_of exposed_of c.exposed_headers xs;
  max_age = last_of age_of c.max_age xs;
  allow_credentials = last_of credentials_of c.allow_credentials xs;
}

module _ {σ : Type 0} (handler : Options → Middleware σ) where
  configured_last :
      (xs : List Setting) (c : Config)
      → middleware_with_config handler (apply_options (map option_of xs) c)
        ≡ handler (last_set c xs)
  unfolding apply_options middleware_with_config
  configured_last [] c = refl
  configured_last (origins x ∷ xs) c = configured_last xs (with_allowed_origins x c)
  configured_last (methods x ∷ xs) c = configured_last xs (with_allowed_methods x c)
  configured_last (headers x ∷ xs) c = configured_last xs (with_allowed_headers x c)
  configured_last (exposed x ∷ xs) c = configured_last xs (with_exposed_headers x c)
  configured_last (age x ∷ xs) c = configured_last xs (with_max_age x c)
  configured_last (credentials x ∷ xs) c = configured_last xs (with_allow_credentials x c)

  -- For any sequence of the package's options, repeated ones included, the middleware is that of
  -- go-chi/cors with, for each of the six values, the last that an option sets; where none does,
  -- these are no origins, the six methods, the three headers, the header `X-Request-ID` exposed, 24
  -- hours, and credentials allowed.
  pub middleware_last :
      (xs : List Setting)
      → middleware handler (map option_of xs)
        ≡ handler (record {
          allowed_origins = last_of origins_of [] xs;
          allowed_methods =
              last_of methods_of
                (codes "GET"
                  ∷ codes "POST"
                  ∷ codes "PUT"
                  ∷ codes "DELETE"
                  ∷ codes "PATCH"
                  ∷ codes "OPTIONS"
                  ∷ [])
                xs;
          allowed_headers =
              last_of headers_of
                (codes "Content-Type" ∷ codes "Authorization" ∷ codes "X-Request-ID" ∷ [])
                xs;
          exposed_headers = last_of exposed_of (codes "X-Request-ID" ∷ []) xs;
          max_age = last_of age_of (pos (24 * 3600)) xs;
          allow_credentials = last_of credentials_of true xs;
        })
  unfolding middleware middleware_with_config
  middleware_last xs = configured_last xs default_config
