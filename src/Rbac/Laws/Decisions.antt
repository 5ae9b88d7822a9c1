-- ===== src/Rbac/Laws/Decisions.antt =====
-- Whom each guard lets through, of those who have claims.
use txova_go_middleware.Base.{
  contains, contains_iff, ◌≡◌, ◌≢◌, ◌⊎◌, inl, inr, true, some, List, [], Any, All, Holds, Text,
  Text_eq, text_eq, text_eq_iff, Bool-cases, ne_of_text_eq,
}
use txova_go_middleware.Context.{Claims, claims_from_context}
use txova_go_middleware.Errors.{Core}
use txova_go_middleware.Http.Program.{Request}
use txova_go_middleware.Http.Refusal.{Refuses, Passes}
use txova_go_middleware.Auth.Claims.Laws.{
  has_any_role_iff, has_any_role_cases, has_all_permissions_iff, has_all_permissions_cases,
}
use txova_go_middleware.Rbac.{
  Options, require_role, require_permission, require_owner, require_role_or_owner,
  require_user_type,
}
use txova_go_middleware.Rbac.Laws.{
  require_role_branches, require_permission_branches, require_owner_branches,
  require_role_or_owner_branches, require_user_type_branches,
}

text-cases : (s t : Text) → (s ≡ t) ⊎ (s ≢ t)
text-cases s t = elim (Bool-cases (text_eq s t)) [
  | inl same ↦ inl ((text_eq_iff s t).0 same)
  | inr other ↦ inr (ne_of_text_eq s t other)
]

module _ (core : Core) {σ : Type 0} (opts : Options σ) (r : Request) (c : Claims)
    (present : claims_from_context (some r.context) ≡ (some c, true)) where
  -- For a request with claims in its context, either one of the required roles is among its own,
  -- and `RequireRole` hands it to the next handler, unchanged; or none is, and it is refused
  -- with 403.
  pub require_role_decides :
      (roles : List Text)
      → (Any (Holds c.roles) roles × Passes (require_role core roles opts) r)
        ⊎ ((¬ Any (Holds c.roles) roles) × Refuses 403 (require_role core roles opts) r)
  require_role_decides roles =
      let (passes, refuses) = require_role_branches core opts r c present roles in
      elim (has_any_role_cases c roles) [
        | inl e ↦ let held = (has_any_role_iff c roles).0.0 e in inl (held, passes held)
        | inr e ↦ let lacking = (has_any_role_iff c roles).1.0 e in inr (lacking, refuses lacking)
      ]

  -- For a request with claims in its context, either all the required permissions are among its
  -- own, and `RequirePermission` hands it to the next handler, unchanged; or one is missing, and it
  -- is refused with 403.
  pub require_permission_decides :
      (permissions : List Text)
      → (All (Holds c.permissions) permissions
          × Passes (require_permission core permissions opts) r)
        ⊎ ((¬ All (Holds c.permissions) permissions)
            × Refuses 403 (require_permission core permissions opts) r)
  require_permission_decides permissions =
      let (passes, refuses) = require_permission_branches core opts r c present permissions in
      elim (has_all_permissions_cases c permissions) [
        | inl e ↦
            let held = (has_all_permissions_iff c permissions).0.0 e in inl (held, passes held)
        | inr e ↦
            let lacking = (has_all_permissions_iff c permissions).1.0 e in
            inr (lacking, refuses lacking)
      ]

  -- For a request with claims in its context, either its user type is one of those listed, and
  -- `RequireUserType` hands it to the next handler, unchanged; or it is not, and it is refused
  -- with 403.
  pub require_user_type_decides :
      (types : List Text)
      → (Holds types c.user_type × Passes (require_user_type core types opts) r)
        ⊎ ((¬ Holds types c.user_type) × Refuses 403 (require_user_type core types opts) r)
  require_user_type_decides types =
      let (passes, refuses) = require_user_type_branches core opts r c present types in
      elim (Bool-cases (contains types c.user_type)) [
        | inl e ↦ let held = (contains_iff types c.user_type).0 e in inl (held, passes held)
        | inr e ↦
            let lacking : ¬ Holds types c.user_type =
              λ held. cc ((contains_iff types c.user_type).1 held) in
            inr (lacking, refuses lacking)
      ]

  module _ (url_param : Request → Text → Text) (param : Text) where
    -- For a request with claims in its context: either its URL has no such parameter, and
    -- `RequireOwner` refuses it with 400; or its user is the owner that the parameter names, and it
    -- goes to the next handler, unchanged; or the user is another, and it is refused with 403.
    pub require_owner_decides :
        ((url_param r param ≡ []) × Refuses 400 (require_owner core url_param param opts) r)
        ⊎ ((url_param r param ≢ [])
            × (url_param r param ≡ c.user_id)
            × Passes (require_owner core url_param param opts) r)
        ⊎ ((url_param r param ≢ [])
            × (url_param r param ≢ c.user_id)
            × Refuses 403 (require_owner core url_param param opts) r)
    require_owner_decides =
        let (no_owner, passes, refuses) =
          require_owner_branches core opts r c present url_param param in
        elim (text-cases (url_param r param) []) [
          | inl missing ↦ inl (missing, no_owner missing)
          | inr given ↦ elim (text-cases (url_param r param) c.user_id) [
            | inl same ↦ inr (inl (given, same, passes given same))
            | inr other ↦ inr (inr (given, other, refuses given other))
          ]
        ]

    -- For a request with claims in its context: either it has one of the roles, or its user is the
    -- owner that a parameter of the URL names, and `RequireRoleOrOwner` hands it to the next
    -- handler, unchanged; or it has none, and the parameter is missing or names another, and it is
    -- refused with 403.
    pub require_role_or_owner_decides :
        (roles : List Text)
        → ((Any (Holds c.roles) roles
              ⊎ ((url_param r param ≢ []) × (url_param r param ≡ c.user_id)))
            × Passes (require_role_or_owner core url_param param roles opts) r)
          ⊎ ((¬ Any (Holds c.roles) roles)
              × ((url_param r param ≡ []) ⊎ (url_param r param ≢ c.user_id))
              × Refuses 403 (require_role_or_owner core url_param param roles opts) r)
    require_role_or_owner_decides roles =
        let (passes, refuses) =
          require_role_or_owner_branches core opts r c present url_param param roles in
        elim (has_any_role_cases c roles) [
          | inl e ↦ let held = (has_any_role_iff c roles).0.0 e in inl (inl held, passes (inl held))
          | inr e ↦
              let lacking = (has_any_role_iff c roles).1.0 e in
              elim (text-cases (url_param r param) []) [
                | inl missing ↦ inr (lacking, inl missing, refuses lacking (inl missing))
                | inr given ↦ elim (text-cases (url_param r param) c.user_id) [
                  | inl same ↦ inl (inr (given, same), passes (inr (given, same)))
                  | inr other ↦ inr (lacking, inr other, refuses lacking (inr other))
                ]
              ]
        ]
