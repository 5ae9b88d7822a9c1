-- ===== src/Auth/Validator/Laws/Decisions.antt =====
-- What the validator makes of a token, and how it reports what is wrong with one.
use txova_go_middleware.Base.{
  ◌≢◌, sym, ◌∙◌, text_eq_iff, ne_of_text_eq, ◌≡◌, ◌⊎◌, inl, inr, refl, Bool, true, false, Text,
  Text_eq, text_eq, Result, ok, err, Bool-cases, [], codes, if◌then◌else◌,
}
use txova_go_middleware.Auth.Validator.Laws.{MatchesAudience, claims_accepted, true-ne-false}
use txova_go_middleware.Auth.Validator.Laws.Demands.{Demands, parser_options-Demands}
use txova_go_middleware.Context.{Claims}
use txova_go_middleware.Errors.{Core}
use txova_go_middleware.Auth.Validator.{
  Validator, ParserOptions, token_expired, token_not_valid_yet, token_malformed, signature_invalid,
  token_signature_invalid, Jwt, map_error, validate_audience, parser_options, audience_fails,
  after_parse, validate,
}

choice_satisfies :
    {A : Type 0} (Q : A → Type 0) (b : Bool) {yes no : A} → Q yes → Q no → Q (if b then yes else no)
choice_satisfies Q false q r = r
choice_satisfies Q true q r = q

module _ (core : Core) where
  -- An error that a client can tell from the others by its code.
  abbrev pub IsReport : core.AppError → Type 0
  IsReport a =
      (core.status a ≡ 401)
      × ((core.code a ≡ codes "TOKEN_EXPIRED") ⊎ (core.code a ≡ codes "TOKEN_INVALID"))

  abbrev IsInvalid : core.AppError → Type 0
  IsInvalid a = (core.status a ≡ 401) × (core.code a ≡ codes "TOKEN_INVALID")

  token_invalid-IsInvalid : (m : Text) → IsInvalid (core.token_invalid m)
  token_invalid-IsInvalid m = (core.status-token_invalid m, core.code-token_invalid m)

  -- The validator's claims, or its report.
  abbrev pub Outcome : Result core.AppError Claims → Type 0
  Outcome x = ((c : Claims) × (x ≡ ok c)) ⊎ ((a : core.AppError) × (x ≡ err a) × IsReport a)

  module _ (jwt : Jwt) where
    -- Every error of package jwt is reported with the status 401, and an expired token, whatever
    -- else is wrong with it, as TOKEN_EXPIRED; every other as TOKEN_INVALID.
    map_error_reports :
        (e : jwt.JwtError)
        → (core.status (map_error core jwt e) ≡ 401)
          × (((jwt.is e token_expired ≡ true)
                × (core.code (map_error core jwt e) ≡ codes "TOKEN_EXPIRED"))
              ⊎ ((jwt.is e token_expired ≡ false)
                  × (core.code (map_error core jwt e) ≡ codes "TOKEN_INVALID")))
    unfolding map_error
    map_error_reports e =
        let invalid = token_invalid-IsInvalid in
        elim (Bool-cases (jwt.is e token_expired)) [
          | inl expired ↦
              rw expired (core.status-token_expired _, inl (refl, core.code-token_expired _))
          | inr other ↦ rw other (
              let rest = choice_satisfies IsInvalid (jwt.is e token_not_valid_yet) (invalid _) (
                choice_satisfies IsInvalid (jwt.is e token_malformed) (invalid _) (
                  choice_satisfies IsInvalid (jwt.is e signature_invalid) (invalid _) (
                    choice_satisfies IsInvalid (jwt.is e token_signature_invalid) (invalid _)
                      (invalid _)))) in
              (rest.0, inr (refl, rest.1)))
        ]

    abbrev pub IsAddressed : Validator → Claims → Type 0
    IsAddressed v c = (v.audience ≡ []) ⊎ MatchesAudience (jwt.get_audience c.registered) v.audience

    -- What package jwt makes of a token that is rejected, but not as expired.
    abbrev pub Rejects : Validator → Result jwt.JwtError (Claims × Bool) → Type 0
    Rejects v parsed =
        ((e : jwt.JwtError) × (parsed ≡ err e) × (jwt.is e token_expired ≡ false))
        ⊎ ((c : Claims) × (valid : Bool) × (parsed ≡ ok (c, valid))
            × (¬ ((valid ≡ true) × IsAddressed v c)))

    abbrev pub Expires : Result jwt.JwtError (Claims × Bool) → Type 0
    Expires parsed = (e : jwt.JwtError) × (parsed ≡ err e) × (jwt.is e token_expired ≡ true)

    after_parse_decides :
        (v : Validator) (parsed : Result jwt.JwtError (Claims × Bool))
        → ((c : Claims) × (parsed ≡ ok (c, true))
            × IsAddressed v c
            × (after_parse core jwt v parsed ≡ ok c))
          ⊎ ((a : core.AppError) × (after_parse core jwt v parsed ≡ err a)
              × (core.status a ≡ 401)
              × (((core.code a ≡ codes "TOKEN_EXPIRED") × Expires parsed)
                  ⊎ ((core.code a ≡ codes "TOKEN_INVALID") × Rejects v parsed)))
    unfolding after_parse
    after_parse_decides v (err e) =
        let (status, code) = map_error_reports e in
        inr (
          map_error core jwt e,
          refl,
          status,
          elim code [
            | inl (h, expired) ↦ inl (expired, (e, refl, h))
            | inr (h, invalid) ↦ inr (invalid, inl (e, refl, h))
          ],
        )
    after_parse_decides v (ok (c, false)) =
        let (status, code) = token_invalid-IsInvalid (codes "token is invalid") in
        inr (_, refl, status, inr (code, inr (c, false, refl, λ h. cc (h.0))))
    after_parse_decides v (ok (c, true)) =
        let accepted = claims_accepted core jwt v c in
        elim (Bool-cases (audience_fails v.audience (validate_audience core jwt v c))) [
          | inl fails ↦
              let message = codes "token audience does not match any configured audience" in
              let (status, code) = token_invalid-IsInvalid message in
              inr (
                core.token_invalid message,
                rw fails refl,
                status,
                inr (code, inr (c, true, refl, λ h. true-ne-false (sym fails ∙ accepted.1 h.1))),
              )
          | inr passes ↦ inl (c, refl, accepted.0 passes, rw passes refl)
        ]

    module _ (v : Validator) (token : Text) where
      abbrev pub parsed_token : Result jwt.JwtError (Claims × Bool)
      parsed_token = jwt.parse_with_claims (parser_options v) v.public_key token

      -- The branches of `Validate`.
      validate_branches :
          ((c : Claims) × (token ≢ [])
            × (parsed_token ≡ ok (c, true))
            × IsAddressed v c
            × (validate core jwt v token ≡ ok c))
          ⊎ ((a : core.AppError) × (validate core jwt v token ≡ err a)
              × (core.status a ≡ 401)
              × (((core.code a ≡ codes "TOKEN_EXPIRED") × (token ≢ []) × Expires parsed_token)
                  ⊎ ((core.code a ≡ codes "TOKEN_INVALID")
                      × ((token ≡ []) ⊎ Rejects v parsed_token))))
      unfolding validate
      validate_branches = elim (Bool-cases (text_eq token [])) [
        | inl empty ↦
            let (status, code) = token_invalid-IsInvalid (codes "token is empty") in
            inr (_, rw empty refl, status, inr (code, inl ((text_eq_iff token []).0 empty)))
        | inr n ↦
            let given = ne_of_text_eq token [] n in
            elim (after_parse_decides v parsed_token) [
              | inl (c, parsed, addressed, accepts) ↦
                  inl (c, given, parsed, addressed, rw n accepts)
              | inr (a, fails, status, inl (code, expires)) ↦
                  inr (a, rw n fails, status, inl (code, given, expires))
              | inr (a, fails, status, inr (code, rejects)) ↦
                  inr (a, rw n fails, status, inr (code, inr rejects))
            ]
      ]

      -- `Validate` returns claims, or an error with the status 401 and one of two codes.
      pub validate-Outcome : Outcome (validate core jwt v token)
      validate-Outcome = elim validate_branches [
        | inl (c, given, parsed, addressed, accepts) ↦ inl (c, accepts)
        | inr (a, fails, status, inl (code, given, expires)) ↦ inr (a, fails, (status, inl code))
        | inr (a, fails, status, inr (code, rejects)) ↦ inr (a, fails, (status, inr code))
      ]

      -- `Validate`, on every branch. Package jwt is asked to demand one of nine methods, the three
      -- sizes of RSA, ECDSA and HMAC, and the validator's issuer, if it has one. Either the token is
      -- not empty, package jwt, with these demands and the validator's key, parses it to claims as
      -- valid, and the validator has no audiences or the token names one of them, and the result is
      -- these claims. Or it is an error with the status 401: it has the code TOKEN_EXPIRED, and
      -- package jwt reports the token, which is not empty, as expired, whatever else is wrong with
      -- it; or it has the code TOKEN_INVALID, and the token is empty, or package jwt reports another
      -- error, or the claims are not valid or not for one of the audiences.
      pub validate_decides :
          (o : ParserOptions) × Demands v o
          × let parsed = jwt.parse_with_claims o v.public_key token in
            ((c : Claims) × (token ≢ [])
              × (parsed ≡ ok (c, true))
              × IsAddressed v c
              × (validate core jwt v token ≡ ok c))
            ⊎ ((a : core.AppError) × (validate core jwt v token ≡ err a)
                × (core.status a ≡ 401)
                × (((core.code a ≡ codes "TOKEN_EXPIRED") × (token ≢ []) × Expires parsed)
                    ⊎ ((core.code a ≡ codes "TOKEN_INVALID") × ((token ≡ []) ⊎ Rejects v parsed))))
      validate_decides = (parser_options v, parser_options-Demands v, validate_branches)
