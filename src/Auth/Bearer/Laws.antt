-- ===== src/Auth/Bearer/Laws.antt =====
-- Which headers hold a token, and which error the others give.
use txova_go_middleware.Base.{
  ℕ, ◌≡◌, ◌≢◌, ◌⊎◌, inl, inr, refl, true, false, List, [], ◌∷◌, ◌++◌, arith, Text, Text_eq, text_eq,
  text_eq_iff, split_two, split_two-append, split_two_of_Lacks, first_occurrence, text_ne,
  ne_of_text_eq, equal_fold, Lacks, trim_space, Result, ok, err, sym, ◌∙◌, Bool-cases,
}
use txova_go_middleware.Errors.{Core, token_required}
use txova_go_middleware.Http.Headers.{header_get}
use txova_go_middleware.Http.Program.{Request}
use txova_go_middleware.Auth.Bearer.{
  authorization, bearer, malformed_header, empty_token, token_of, token_of_parts,
  extract_bearer_token,
}

-- The text is `scheme`, a blank and `credentials`, where the scheme is "Bearer" in any case.
pub record IsBearer (header credentials : Text) : Type 0 where
  pub scheme : Text
  pub splits : header ≡ scheme ++ b' ' ∷ credentials
  pub no_blank : Lacks b' ' scheme
  pub is_bearer : equal_fold scheme bearer ≡ true

append-ne-nil : (s : Text) (c : ℕ) (t : Text) → s ++ c ∷ t ≢ []
append-ne-nil [] c t e = cc
append-ne-nil (x ∷ s) c t e = cc

ok-ne-err : {E A : Type 0} {a : A} {e : E} → ◌≢◌ {A = Result E A} (ok a) (err e)
ok-ne-err h = cc

err_inj : {E A : Type 0} {a b : E} → ◌≡◌ {A = Result E A} (err a) (err b) → a ≡ b
err_inj h = cc

module _ (core : Core) (r : Request) where
  extract_of_IsBearer :
      (credentials : Text)
      → IsBearer (header_get r.header authorization) credentials
      → extract_bearer_token core r ≡ token_of core credentials
  unfolding extract_bearer_token
  extract_of_IsBearer credentials b =
      let nonempty : text_eq (b.scheme ++ b' ' ∷ credentials) [] ≡ false = ground (
        arith,
        text_eq_iff (b.scheme ++ b' ' ∷ credentials) [],
        append-ne-nil b.scheme b' ' credentials,
      ) in
      rw (b.splits, nonempty, split_two-append b.scheme credentials b' ' b.no_blank, b.is_bearer)
        refl

  extract_of_other :
      header_get r.header authorization ≢ []
      → ((credentials : Text) → ¬ IsBearer (header_get r.header authorization) credentials)
      → extract_bearer_token core r ≡ err (malformed_header core)
  unfolding extract_bearer_token
  extract_of_other given other =
      let header = header_get r.header authorization in
      elim (first_occurrence header b' ') [
        | inl lacks ↦ rw (text_ne header [] given, split_two_of_Lacks header b' ' lacks)
        | inr (scheme, rest, e, lacks) ↦ elim (Bool-cases (equal_fold scheme bearer)) [
          | inl bears ↦ absurd (
              other rest
                (record { scheme = scheme; splits = e; no_blank = lacks; is_bearer = bears }))
          | inr strange ↦
              rw (text_ne header [] given, e, split_two-append scheme rest b' ' lacks, strange)
        ]
      ]

  token_of_parts_error :
      (parts : List Text) (e : core.AppError)
      → token_of_parts core parts ≡ err e
      → (m : Text) × (e ≡ core.token_invalid m)
  unfolding token_of_parts
  token_of_parts_error [] e h = (_, sym (err_inj h))
  token_of_parts_error (scheme ∷ []) e h = (_, sym (err_inj h))
  token_of_parts_error (scheme ∷ part ∷ []) e h = elim (Bool-cases (equal_fold scheme bearer)) [
    | inr strange ↦ (_, sym (err_inj (rw strange at h)))
    | inl bears ↦ elim (Bool-cases (text_eq (trim_space part) [])) [
      | inl blank ↦ (_, sym (err_inj (rw blank at (rw bears at h))))
      | inr token ↦ absurd (ok-ne-err (rw token at (rw bears at h)))
    ]
  ]
  token_of_parts_error (scheme ∷ part ∷ more ∷ rest) e h = (_, sym (err_inj h))

  -- Credentials of the header, if it is "Bearer", a blank and credentials.
  IsBearer-cases :
      (header : Text)
      → ((credentials : Text) × IsBearer header credentials)
        ⊎ ((credentials : Text) → ¬ IsBearer header credentials)
  IsBearer-cases header = elim (first_occurrence header b' ') [
    | inl lacks ↦ inr (λ c b.
        cc (split_two_of_Lacks header b' ' lacks, split_two-append b.scheme c b' ' b.no_blank))
    | inr (scheme, rest, e, lacks) ↦ elim (Bool-cases (equal_fold scheme bearer)) [
      | inl bears ↦
          inl (rest, record { scheme = scheme; splits = e; no_blank = lacks; is_bearer = bears })
      | inr strange ↦ inr (λ c b.
          cc (split_two-append scheme rest b' ' lacks, split_two-append b.scheme c b' ' b.no_blank))
    ]
  ]

  extract_of_credentials :
      (c : Text)
      → IsBearer (header_get r.header authorization) c
      → ((trim_space c ≡ []) × (extract_bearer_token core r ≡ err (empty_token core)))
        ⊎ ((trim_space c ≢ []) × (extract_bearer_token core r ≡ ok (trim_space c)))
  extract_of_credentials c b = elim (Bool-cases (text_eq (trim_space c) [])) [
    | inl e ↦ inl (
      (text_eq_iff (trim_space c) []).0 e,
      extract_of_IsBearer c b ∙ unfold token_of in rw e refl,
    )
    | inr n ↦
        inr (
          ne_of_text_eq (trim_space c) [] n,
          extract_of_IsBearer c b ∙ unfold token_of in rw n refl,
        )
  ]

  -- What `extractBearerToken` makes of the Authorization header, on every branch: no header is
  -- TOKEN_REQUIRED; a header that is not "Bearer", in any case, a blank and credentials is
  -- malformed; blank credentials are an empty token; and all others, without the white space
  -- around them, are the token.
  pub extract_bearer_token_decides :
      let header = header_get r.header authorization in
      ((header ≡ []) × (extract_bearer_token core r ≡ err (token_required core)))
      ⊎ ((header ≢ [])
          × ((credentials : Text) → ¬ IsBearer header credentials)
          × (extract_bearer_token core r ≡ err (malformed_header core)))
      ⊎ ((credentials : Text) × IsBearer header credentials
          × (((trim_space credentials ≡ [])
                × (extract_bearer_token core r ≡ err (empty_token core)))
              ⊎ ((trim_space credentials ≢ [])
                  × (extract_bearer_token core r ≡ ok (trim_space credentials)))))
  unfolding extract_bearer_token
  extract_bearer_token_decides =
      let header = header_get r.header authorization in
      elim (Bool-cases (text_eq header [])) [
        | inl e ↦ inl ((text_eq_iff header []).0 e, rw e refl)
        | inr n ↦
            let given = ne_of_text_eq header [] n in
            elim (IsBearer-cases header) [
              | inl (c, b) ↦ inr (inr (c, b, extract_of_credentials c b))
              | inr other ↦ inr (inl (given, other, extract_of_other given other))
            ]
      ]

  -- The errors are TOKEN_REQUIRED and two of token_invalid.
  pub extract_error_cases :
      (e : core.AppError)
      → extract_bearer_token core r ≡ err e
      → (e ≡ token_required core) ⊎ ((m : Text) × (e ≡ core.token_invalid m))
  unfolding extract_bearer_token
  extract_error_cases e h = elim (Bool-cases (text_eq (header_get r.header authorization) [])) [
    | inl missing ↦ inl (ground arith)
    | inr given ↦ inr (
        token_of_parts_error (split_two (header_get r.header authorization) b' ') e (rw given at h))
  ]
