-- ===== src/Tests/Access.antt =====
-- The guards of package rbac, on a driver's request.
use txova_go_middleware.Base.{
  ◌≡◌, ◌≢◌, ◌⊎◌, refl, true, false, none, some, [], ◌∷◌, Any, All, Holds, Text, Text_eq, codes,
}
use txova_go_middleware.Base.{ℕ}
use txova_go_middleware.Context.{background, with_value, key_claims, claims, claims_from_context}
use txova_go_middleware.Http.Program.{Request}
use txova_go_middleware.Http.Refusal.{Refuses, Passes}
use txova_go_middleware.Rbac.{
  require_role, require_permission, require_user_type, require_owner, require_role_or_owner,
}
use txova_go_middleware.Rbac.Laws.{guards_need_claims}
use txova_go_middleware.Rbac.Laws.Decisions.{
  require_role_decides, require_user_type_decides, require_permission_decides,
  require_owner_decides, require_role_or_owner_decides,
}
use txova_go_middleware.Tests.Samples.{core, driver, get, plain}

abbrev known : Request
known = get [] (with_value background key_claims (claims (some driver)))

abbrev url_param : Request → Text → Text
url_param r name = codes "u1"

known_claims : claims_from_context (some known.context) ≡ (some driver, true)
unfolding claims_from_context
known_claims = refl

no_claims : claims_from_context (some plain.context) ≡ (none, false)
unfolding claims_from_context
no_claims = refl

guards_need_claims_example :
    Refuses {σ = ℕ} 401 (require_role core (codes "admin" ∷ []) []) plain
    × Refuses {σ = ℕ} 401 (require_permission core (codes "admin" ∷ []) []) plain
    × Refuses {σ = ℕ} 401 (require_user_type core (codes "admin" ∷ []) []) plain
    × Refuses {σ = ℕ} 401 (require_owner core url_param (codes "id") []) plain
    × Refuses {σ = ℕ} 401
        (require_role_or_owner core url_param (codes "id") (codes "admin" ∷ []) [])
        plain
guards_need_claims_example =
    guards_need_claims core [] plain url_param none (codes "admin" ∷ []) (codes "id") no_claims

require_role_decides_example :
    (Any (Holds driver.roles) (codes "admin" ∷ codes "driver" ∷ [])
      × Passes {σ = ℕ} (require_role core (codes "admin" ∷ codes "driver" ∷ []) []) known)
    ⊎ ((¬ Any (Holds driver.roles) (codes "admin" ∷ codes "driver" ∷ []))
        × Refuses {σ = ℕ} 403 (require_role core (codes "admin" ∷ codes "driver" ∷ []) []) known)
require_role_decides_example =
    require_role_decides core [] known driver known_claims (codes "admin" ∷ codes "driver" ∷ [])

require_permission_decides_example :
    (All (Holds driver.permissions) (codes "ride:read" ∷ [])
      × Passes {σ = ℕ} (require_permission core (codes "ride:read" ∷ []) []) known)
    ⊎ ((¬ All (Holds driver.permissions) (codes "ride:read" ∷ []))
        × Refuses {σ = ℕ} 403 (require_permission core (codes "ride:read" ∷ []) []) known)
require_permission_decides_example =
    require_permission_decides core [] known driver known_claims (codes "ride:read" ∷ [])

require_owner_decides_example :
    ((codes "u1" ≡ []) × Refuses {σ = ℕ} 400 (require_owner core url_param (codes "id") []) known)
    ⊎ ((codes "u1" ≢ [])
        × (codes "u1" ≡ driver.user_id)
        × Passes {σ = ℕ} (require_owner core url_param (codes "id") []) known)
    ⊎ ((codes "u1" ≢ [])
        × (codes "u1" ≢ driver.user_id)
        × Refuses {σ = ℕ} 403 (require_owner core url_param (codes "id") []) known)
require_owner_decides_example =
    require_owner_decides core [] known driver known_claims url_param (codes "id")

require_role_or_owner_decides_example :
    ((Any (Holds driver.roles) (codes "admin" ∷ [])
        ⊎ ((codes "u1" ≢ []) × (codes "u1" ≡ driver.user_id)))
      × Passes {σ = ℕ}
          (require_role_or_owner core url_param (codes "id") (codes "admin" ∷ []) [])
          known)
    ⊎ ((¬ Any (Holds driver.roles) (codes "admin" ∷ []))
        × ((codes "u1" ≡ []) ⊎ (codes "u1" ≢ driver.user_id))
        × Refuses {σ = ℕ} 403
            (require_role_or_owner core url_param (codes "id") (codes "admin" ∷ []) [])
            known)
require_role_or_owner_decides_example =
    require_role_or_owner_decides core [] known driver known_claims url_param (codes "id")
      (codes "admin" ∷ [])

require_user_type_decides_example :
    (Holds (codes "rider" ∷ []) driver.user_type
      × Passes {σ = ℕ} (require_user_type core (codes "rider" ∷ []) []) known)
    ⊎ ((¬ Holds (codes "rider" ∷ []) driver.user_type)
        × Refuses {σ = ℕ} 403 (require_user_type core (codes "rider" ∷ []) []) known)
require_user_type_decides_example =
    require_user_type_decides core [] known driver known_claims (codes "rider" ∷ [])
