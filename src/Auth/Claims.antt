-- ===== src/Auth/Claims.antt =====
-- auth/claims.go: the checks of roles and permissions. The receiver is a pointer: `none` is a nil
-- one, whose fields cannot be read, and the result `none` is the panic that this causes.
pub mod Laws
use txova_go_middleware.Base.{
  Bool, true, false, Option, none, some, List, [], ◌∷◌, ◌==◌, if◌then◌else◌, Text, Text_eq,
  contains,
}
use txova_go_middleware.Context.{Claims}

infixl 5 ◌>>=◌
abbrev pub ◌>>=◌ {ℓ κ} : {A : Type ℓ} {B : Type κ} → Option A → (A → Option B) → Option B
none >>= f = none
some a >>= f = f a

unfoldable pub has_role : Option Claims → Text → Option Bool
has_role none role = none
has_role (some c) role = some (contains c.roles role)

unfoldable pub has_any_role : Option Claims → List Text → Option Bool
unfolding has_role
has_any_role c [] = some false
has_any_role c (role ∷ roles) = do
  held ← has_role c role
  let rest = has_any_role c roles
  if held then some true else rest

unfoldable pub has_permission : Option Claims → Text → Option Bool
has_permission none permission = none
has_permission (some c) permission = some (contains c.permissions permission)

unfoldable pub has_all_permissions : Option Claims → List Text → Option Bool
unfolding has_permission
has_all_permissions c [] = some true
has_all_permissions c (permission ∷ permissions) = do
  held ← has_permission c permission
  let rest = has_all_permissions c permissions
  if held then rest else some false
