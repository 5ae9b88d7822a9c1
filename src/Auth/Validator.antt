-- ===== src/Auth/Validator.antt =====
-- auth/validator.go: the stateless validator of JWTs. Package jwt is not part of this repository:
-- the record `Jwt` holds what the program calls of it.
pub mod Laws
use txova_go_middleware.Base.{
  Bool, true, false, not, Option, none, some, List, [], ◌∷◌, ◌++◌, ◌==◌, if◌then◌else◌, Text,
  Text_eq, codes, contains, Result, ok, err,
}
use txova_go_middleware.Context.{Claims}
use txova_go_middleware.Errors.{Core}

-- The keys that the package takes, and one of another type. Their contents are opaque.
pub data PublicKey : Type 0 where
  rsa : Text → PublicKey
  ecdsa : Text → PublicKey
  bytes : Text → PublicKey
  unsupported : Text → PublicKey

pub record ValidatorConfig : Type 0 where
  pub public_key : Option PublicKey
  pub issuer : Text
  pub audience : List Text

pub record Validator : Type 0 where
  pub public_key : PublicKey
  pub issuer : Text
  pub audience : List Text

-- The errors of package jwt that `mapError` asks for by `errors.Is`.
pub data Failure : Type 0 where
  token_expired token_not_valid_yet token_malformed signature_invalid token_signature_invalid :
      Failure

-- `jwt.WithValidMethods` and `jwt.WithIssuer`
pub record ParserOptions : Type 0 where
  pub valid_methods : List Text
  pub issuer : Option Text

pub record Jwt : Type 1 where
  pub JwtError : Type 0
  pub is : JwtError → Failure → Bool
  pub error_text : JwtError → Text
  -- `jwt.ParseWithClaims`: the claims and `token.Valid`, or an error.
  pub parse_with_claims : ParserOptions → PublicKey → Text → Result JwtError (Claims × Bool)
  -- `claims.GetAudience()`, of the registered claims; `none` for an error.
  pub get_audience : Text → Option (List Text)

abbrev pub valid_methods : List Text
valid_methods =
    codes "RS256"
    ∷ codes "RS384"
    ∷ codes "RS512"
    ∷ codes "ES256"
    ∷ codes "ES384"
    ∷ codes "ES512"
    ∷ codes "HS256"
    ∷ codes "HS384"
    ∷ codes "HS512"
    ∷ []

-- The loop over the configured audiences of `validateAudience`.
any_configured : List Text → List Text → Bool
any_configured token_audiences [] = false
any_configured token_audiences (aud ∷ configured) =
    if contains token_audiences aud then true else any_configured token_audiences configured

has_audience : List Text → Option (List Text) → Bool
unfolding any_configured
has_audience configured none = false
has_audience configured (some []) = false
has_audience configured (some (aud ∷ auds)) = any_configured (aud ∷ auds) configured

unfoldable pub parser_options : Validator → ParserOptions
parser_options v = record {
  valid_methods = valid_methods;
  issuer = if v.issuer == [] then none else some v.issuer;
}

-- `len(v.audience) > 0 && !matches`
pub audience_fails : List Text → Bool → Bool
audience_fails [] matches = false
audience_fails (aud ∷ configured) matches = not matches

module _ (core : Core) where
  abbrev key_required : core.AppError
  key_required = core.validation_error (codes "public key is required")

  -- The type switch on the key.
  accept_key : ValidatorConfig → PublicKey → Result core.AppError Validator
  accept_key cfg (unsupported name) =
      err (core.validation_error (codes "unsupported key type: " ++ name))
  accept_key cfg key =
      ok (record { public_key = key; issuer = cfg.issuer; audience = cfg.audience })

  -- `NewValidator`
  unfoldable pub new_validator : ValidatorConfig → Result core.AppError Validator
  unfolding accept_key
  new_validator cfg = elim cfg.public_key [
    | none ↦ err key_required
    | some key ↦ accept_key cfg key
  ]

  module _ (jwt : Jwt) where
    -- `mapError`: the first failure that the error is.
    unfoldable pub map_error : jwt.JwtError → core.AppError
    map_error e =
        if jwt.is e token_expired
        then core.token_expired (codes "token has expired")
        else if jwt.is e token_not_valid_yet
        then core.token_invalid (codes "token is not valid yet")
        else if jwt.is e token_malformed
        then core.token_invalid (codes "token is malformed")
        else if jwt.is e signature_invalid
        then core.token_invalid (codes "invalid token signature")
        else if jwt.is e token_signature_invalid
        then core.token_invalid (codes "invalid token signature")
        else core.token_invalid (codes "token validation failed: " ++ jwt.error_text e)

    -- `validateAudience`
    unfoldable pub validate_audience : Validator → Claims → Bool
    unfolding has_audience
    validate_audience v c = has_audience v.audience (jwt.get_audience c.registered)

    after_parse : Validator → Result jwt.JwtError (Claims × Bool) → Result core.AppError Claims
    unfolding audience_fails
    after_parse v (err e) = err (map_error e)
    after_parse v (ok (c, valid)) =
        if not valid
        then err (core.token_invalid (codes "token is invalid"))
        else if audience_fails v.audience (validate_audience v c)
        then err
            (core.token_invalid (codes "token audience does not match any configured audience"))
        else ok c

    -- `Validate`, and `ValidateToken`, which ignores its context.
    unfoldable pub validate : Validator → Text → Result core.AppError Claims
    unfolding after_parse
    validate v token =
        if token == []
        then err (core.token_invalid (codes "token is empty"))
        else after_parse v (jwt.parse_with_claims (parser_options v) v.public_key token)
