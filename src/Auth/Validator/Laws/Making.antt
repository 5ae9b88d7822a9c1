-- ===== src/Auth/Validator/Laws/Making.antt =====
-- When `NewValidator` makes a validator.
use txova_go_middleware.Base.{
  ◌≡◌, ◌≢◌, ◌↔◌, Option, none, some, arith, Text, Text_eq, ok, err, sym, ap,
}
use txova_go_middleware.Errors.{Core}
use txova_go_middleware.Auth.Validator.{
  PublicKey, unsupported, ValidatorConfig, Validator, accept_key, key_required, new_validator,
}
use txova_go_middleware.Auth.Validator.Laws.{err-ne-ok, ok_inj}

none-ne-some : {A : Type 0} {a : A} → ◌≢◌ {A = Option A} none (some a)
none-ne-some h = cc

some_inj : {A : Type 0} {a b : A} → ◌≡◌ {A = Option A} (some a) (some b) → a ≡ b
some_inj h = cc

module _ (core : Core) where
  accept_key_iff :
      (cfg : ValidatorConfig) (key : PublicKey) (v : Validator)
      → (accept_key core cfg key ≡ ok v) ↔ (
          (key ≡ v.public_key)
          × (cfg.issuer ≡ v.issuer)
          × (cfg.audience ≡ v.audience)
          × ((name : Text) → v.public_key ≢ unsupported name))
  unfolding accept_key
  accept_key_iff cfg (unsupported name) v =
      (λ h. absurd (err-ne-ok h), λ h. absurd (h.3 name (sym h.0)))
  accept_key_iff cfg key v = (
    λ h.
        let same = ok_inj h in
        (
          ap (λ (x : Validator). x.public_key) same,
          ap (λ (x : Validator). x.issuer) same,
          ap (λ (x : Validator). x.audience) same,
          λ name q. cc,
        ),
    λ h. ground arith,
  )

  keyed_iff :
      (cfg : ValidatorConfig) (o : Option PublicKey) (v : Validator)
      → ((elim o [ none ↦ err (key_required core) | some key ↦ accept_key core cfg key ]) ≡ ok v)
        ↔ ((o ≡ some v.public_key)
            × (cfg.issuer ≡ v.issuer)
            × (cfg.audience ≡ v.audience)
            × ((name : Text) → v.public_key ≢ unsupported name))
  keyed_iff cfg none v = (λ h. absurd (err-ne-ok h), λ h. absurd (none-ne-some h.0))
  keyed_iff cfg (some key) v =
      let (to, from) = accept_key_iff cfg key v in
      (
        λ h. let (same, issuer, audience, known) = to h in (ap some same, issuer, audience, known),
        λ h. from (some_inj h.0, h.1, h.2, h.3),
      )

  -- `NewValidator` returns a validator exactly if it has the configured key, issuer and audience,
  -- and a key that is there and not of an unsupported type.
  new_validator_iff :
      (cfg : ValidatorConfig) (v : Validator)
      → (new_validator core cfg ≡ ok v) ↔ (
          (cfg.public_key ≡ some v.public_key)
          × (cfg.issuer ≡ v.issuer)
          × (cfg.audience ≡ v.audience)
          × ((name : Text) → v.public_key ≢ unsupported name))
  unfolding new_validator
  new_validator_iff cfg v = keyed_iff cfg cfg.public_key v
