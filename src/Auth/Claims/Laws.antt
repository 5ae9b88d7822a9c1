-- ===== src/Auth/Claims/Laws.antt =====
-- What the checks of roles and permissions decide.
use txova_go_middleware.Base.{
  ◌≡◌, ◌↔◌, ◌≢◌, ◌⊎◌, refl, true, false, none, some, List, [], ◌∷◌, arith, Any, All, Holds, Text,
  Text_eq, contains_iff, inl, inr,
}
use txova_go_middleware.Context.{Claims}
use txova_go_middleware.Auth.Claims.{has_any_role, has_all_permissions}

-- On claims that are there, `HasAnyRole` always answers, and says yes exactly if one of the roles
-- that it is given is among those of the claims.
pub has_any_role_iff :
    (c : Claims) (roles : List Text)
    → ((has_any_role (some c) roles ≡ some true) ↔ Any (Holds c.roles) roles)
      × ((has_any_role (some c) roles ≡ some false) ↔ ¬ Any (Holds c.roles) roles)
unfolding has_any_role
has_any_role_iff c [] = ground arith
has_any_role_iff c (role ∷ roles) =
    ground (arith, contains_iff c.roles role, has_any_role_iff c roles)

-- `HasAllPermissions` always answers, and says yes exactly if every permission that it is given is
-- among those of the claims.
pub has_all_permissions_iff :
    (c : Claims) (permissions : List Text)
    → ((has_all_permissions (some c) permissions ≡ some true)
        ↔ All (Holds c.permissions) permissions)
      × ((has_all_permissions (some c) permissions ≡ some false)
          ↔ ¬ All (Holds c.permissions) permissions)
unfolding has_all_permissions
has_all_permissions_iff c [] = ground arith
has_all_permissions_iff c (p ∷ permissions) =
    ground (arith, contains_iff c.permissions p, has_all_permissions_iff c permissions)

-- A nil pointer panics exactly if there is something to look for.
pub nil_claims_panic :
    (required : List Text)
    → ((has_any_role none required ≡ none) ↔ (required ≢ []))
      × ((has_all_permissions none required ≡ none) ↔ (required ≢ []))
unfolding has_any_role has_all_permissions
nil_claims_panic [] = ground arith
nil_claims_panic (r ∷ required) = ground arith

pub has_any_role_cases :
    (c : Claims) (roles : List Text)
    → (has_any_role (some c) roles ≡ some true) ⊎ (has_any_role (some c) roles ≡ some false)
unfolding has_any_role
has_any_role_cases c [] = inr refl
has_any_role_cases c (role ∷ roles) = ground (arith, has_any_role_cases c roles)

pub has_all_permissions_cases :
    (c : Claims) (permissions : List Text)
    → (has_all_permissions (some c) permissions ≡ some true)
      ⊎ (has_all_permissions (some c) permissions ≡ some false)
unfolding has_all_permissions
has_all_permissions_cases c [] = inl refl
has_all_permissions_cases c (p ∷ permissions) =
    ground (arith, has_all_permissions_cases c permissions)
