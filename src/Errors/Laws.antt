-- ===== src/Errors/Laws.antt =====
-- The error codes, their statuses, their constructors and their checks fit together.
use txova_go_middleware.Base.{
  ◌≡◌, ◌≢◌, ◌↔◌, ◌⊎◌, refl, true, false, Text, text_eq, text_eq_iff, ne_of_text_eq, arith,
  Bool-cases, inl, inr,
}
use txova_go_middleware.Errors.{
  code_token_required, code_request_timeout, code_maintenance_mode, http_status, app, Core,
  token_required, request_timeout, maintenance_mode, is_token_required, is_request_timeout,
  is_maintenance_mode,
}

required_ne_timeout : code_token_required ≢ code_request_timeout
unfolding text_eq
required_ne_timeout = ne_of_text_eq _ _ refl

required_ne_maintenance : code_token_required ≢ code_maintenance_mode
unfolding text_eq
required_ne_maintenance = ne_of_text_eq _ _ refl

-- The status of a code is 401 exactly for TOKEN_REQUIRED, 503 exactly for the two other codes of
-- the middleware, and 500 for every other text.
http_status_iff :
    (code : Text)
    → ((http_status code ≡ 401) ↔ (code ≡ code_token_required))
      × ((http_status code ≡ 503)
          ↔ ((code ≡ code_request_timeout) ⊎ (code ≡ code_maintenance_mode)))
      × ((http_status code ≡ 500) ↔ (
          (code ≢ code_token_required)
          × (code ≢ code_request_timeout)
          × (code ≢ code_maintenance_mode)))
unfolding http_status
http_status_iff code =
    let required = text_eq_iff code_token_required code in
    let timeout = text_eq_iff code_request_timeout code in
    let maintenance = text_eq_iff code_maintenance_mode code in
    (
      (ground arith, ground (arith, required_ne_timeout)),
      (ground arith, ground (arith, required_ne_timeout, required_ne_maintenance)),
      (ground arith, ground arith),
    )

module _ (core : Core) where
  -- Each check accepts the error that its own constructor builds and rejects those of the two
  -- others, whatever the message of the maintenance error.
  pub checks_of_constructors :
      (m : Text)
      → (is_token_required core (app (token_required core)) ≡ true)
        × (is_request_timeout core (app (token_required core)) ≡ false)
        × (is_maintenance_mode core (app (token_required core)) ≡ false)
        × (is_token_required core (app (request_timeout core)) ≡ false)
        × (is_request_timeout core (app (request_timeout core)) ≡ true)
        × (is_maintenance_mode core (app (request_timeout core)) ≡ false)
        × (is_token_required core (app (maintenance_mode core m)) ≡ false)
        × (is_request_timeout core (app (maintenance_mode core m)) ≡ false)
        × (is_maintenance_mode core (app (maintenance_mode core m)) ≡ true)
  unfolding is_token_required is_request_timeout is_maintenance_mode token_required request_timeout
      maintenance_mode text_eq
  checks_of_constructors m =
      simp (core.is_code-app, core.code-new) (refl, refl, refl, refl, refl, refl, refl, refl, refl)

-- The statuses of the codes.
pub http_status_known :
    (code : Text) → (http_status code ≡ 401) ⊎ (http_status code ≡ 503) ⊎ (http_status code ≡ 500)
unfolding http_status
http_status_known code = elim (Bool-cases (text_eq code_token_required code)) [
  | inl required ↦ inl (rw required refl)
  | inr e ↦ elim (Bool-cases (text_eq code_request_timeout code)) [
    | inl timeout ↦ inr (inl (rw (e, timeout) refl))
    | inr f ↦ elim (Bool-cases (text_eq code_maintenance_mode code)) [
      | inl maintenance ↦ inr (inl (rw (e, f, maintenance) refl))
      | inr g ↦ inr (inr (rw (e, f, g) refl))
    ]
  ]
]
