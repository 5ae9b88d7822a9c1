-- ===== src/Auth/Validator/Laws.antt =====
-- When a token is valid.
pub mod Demands
pub mod Decisions
pub mod Making
use txova_go_middleware.Base.{
  ◌≡◌, ◌≢◌, ◌↔◌, ◌⊎◌, inl, inr, refl, Bool, true, false, Option, none, some, List, [], ◌∷◌, arith,
  Any, Holds, Text, Text_eq, text_eq, text_eq_iff, ne_of_text_eq, contains_iff, Result, ok, err,
  Bool-cases, codes, sym, ap, ◌∙◌, if◌then◌else◌,
}
use mathlib.Core.Path.{subst}
use txova_go_middleware.Context.{Claims}
use txova_go_middleware.Errors.{Core}
use txova_go_middleware.Auth.Validator.{
  PublicKey, unsupported, ValidatorConfig, Validator, token_expired, token_not_valid_yet,
  token_malformed, signature_invalid, token_signature_invalid, Jwt, any_configured, has_audience,
  accept_key, key_required, new_validator, map_error, validate_audience, parser_options,
  audience_fails, after_parse, validate,
}

any_configured_iff :
    (auds configured : List Text)
    → (any_configured auds configured ≡ true) ↔ Any (Holds auds) configured
unfolding any_configured
any_configured_iff auds [] = ground arith
any_configured_iff auds (a ∷ configured) =
    ground (arith, contains_iff auds a, any_configured_iff auds configured)

Any-Holds-nil : (xs : List Text) → ¬ Any (Holds []) xs
Any-Holds-nil [] h = h
Any-Holds-nil (x ∷ xs) (inl h) = h
Any-Holds-nil (x ∷ xs) (inr h) = Any-Holds-nil xs h

-- The audience that the token names, if it names one that is configured.
abbrev pub MatchesAudience : Option (List Text) → List Text → Type 0
MatchesAudience none configured = ⊥
MatchesAudience (some auds) configured = Any (Holds auds) configured

has_audience_iff :
    (configured : List Text) (auds : Option (List Text))
    → (has_audience configured auds ≡ true) ↔ MatchesAudience auds configured
unfolding has_audience
has_audience_iff configured none = ground arith
has_audience_iff configured (some []) = ground (arith, Any-Holds-nil configured)
has_audience_iff configured (some (a ∷ auds)) = any_configured_iff (a ∷ auds) configured

pub err-ne-ok : {E A : Type 0} {a : A} {e : E} → ◌≢◌ {A = Result E A} (err e) (ok a)
err-ne-ok h = cc

cons-ne-nil : {a : Text} {xs : List Text} → a ∷ xs ≢ []
cons-ne-nil h = cc

pub true-ne-false : true ≢ false
true-ne-false h = cc

parsed_inj :
    {E : Type 0} {a b : Claims}
    → ◌≡◌ {A = Result E (Claims × Bool)} (ok (a, true)) (ok (b, true))
    → a ≡ b
parsed_inj h = cc

pub ok_inj : {E A : Type 0} {a b : A} → ◌≡◌ {A = Result E A} (ok a) (ok b) → a ≡ b
ok_inj h = cc

audience_fails_iff :
    (configured : List Text) (auds : Option (List Text))
    → (audience_fails configured (has_audience configured auds) ≡ false)
      ↔ ((configured ≡ []) ⊎ MatchesAudience auds configured)
unfolding audience_fails
audience_fails_iff [] auds = (λ _. inl refl, λ _. refl)
audience_fails_iff (a ∷ configured) auds =
    let (to, from) = has_audience_iff (a ∷ configured) auds in
    (
      λ h. inr (to (ground arith)),
      λ h. elim h [ inl e ↦ absurd (cons-ne-nil e) | inr m ↦ rw (from m) ],
    )

module _ (core : Core) where
  module _ (jwt : Jwt) where
    pub claims_accepted :
        (v : Validator) (c : Claims)
        → (audience_fails v.audience (validate_audience core jwt v c) ≡ false)
          ↔ ((v.audience ≡ []) ⊎ MatchesAudience (jwt.get_audience c.registered) v.audience)
    unfolding validate_audience
    claims_accepted v c = audience_fails_iff v.audience (jwt.get_audience c.registered)

    after_parse_iff :
        (v : Validator) (c : Claims) (r : Result jwt.JwtError (Claims × Bool))
        → (after_parse core jwt v r ≡ ok c) ↔ (
            (r ≡ ok (c, true))
            × ((v.audience ≡ []) ⊎ MatchesAudience (jwt.get_audience c.registered) v.audience))
    unfolding after_parse
    after_parse_iff v c (err e) = (λ h. absurd (err-ne-ok h), λ h. absurd (err-ne-ok h.0))
    after_parse_iff v c (ok (d, false)) = (λ h. absurd (err-ne-ok h), λ h. cc (h.0))
    after_parse_iff v c (ok (d, true)) =
        elim (Bool-cases (audience_fails v.audience (validate_audience core jwt v d))) [
          | inl fails ↦ (
            λ h. absurd (err-ne-ok (rw fails at h)),
            λ h. absurd (
                true-ne-false (
                  sym fails
                  ∙ ap (λ x. audience_fails v.audience (validate_audience core jwt v x))
                      (parsed_inj h.0)
                  ∙ (claims_accepted v c).1 h.1)),
          )
          | inr passes ↦ (
            λ h.
                let same = ok_inj (rw passes at h) in
                (
                  ap {B = Result jwt.JwtError (Claims × Bool)} (λ x. ok (x, true)) same,
                  subst
                      (λ (x : Claims).
                        (v.audience ≡ [])
                        ⊎ MatchesAudience (jwt.get_audience x.registered) v.audience)
                      same ((claims_accepted v d).0 passes),
                ),
            λ h. rw passes (ap {B = Result core.AppError Claims} ok (parsed_inj h.0)),
          )
        ]

    -- `Validate` returns these claims exactly if the token is not empty, package jwt parses it to
    -- them as valid, under the validator's key, issuer and list of methods, and the validator has
    -- no audiences or the token names one of them.
    pub validate_iff :
        (v : Validator) (token : Text) (c : Claims)
        → (validate core jwt v token ≡ ok c) ↔ (
            (token ≢ [])
            × (jwt.parse_with_claims (parser_options v) v.public_key token ≡ ok (c, true))
            × ((v.audience ≡ []) ⊎ MatchesAudience (jwt.get_audience c.registered) v.audience))
    unfolding validate
    validate_iff v token c =
        let (to, from) =
          after_parse_iff v c (jwt.parse_with_claims (parser_options v) v.public_key token) in
        elim (Bool-cases (text_eq token [])) [
          | inl empty ↦ (
            λ h. absurd (err-ne-ok (rw empty at h)),
            λ h. absurd (h.0 ((text_eq_iff token []).0 empty)),
          )
          | inr given ↦ (
            λ h. (ne_of_text_eq token [] given, (to (rw given at h)).0, (to (rw given at h)).1),
            λ h. rw given (from (h.1, h.2)),
          )
        ]
