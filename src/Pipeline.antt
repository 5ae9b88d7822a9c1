-- ===== src/Pipeline.antt =====
-- A route of the kind that README.md shows: authentication, then a guard for a role, in a chain.
pub mod Laws
pub mod Service
use txova_go_middleware.Base.{List, [], ◌∷◌, Text}
use txova_go_middleware.Errors.{Core}
use txova_go_middleware.Http.Program.{Handler}
use txova_go_middleware.Chain.{chain}
use txova_go_middleware.Auth.Guard.{Pattern, TokenValidator, Config, handle}
use txova_go_middleware.Rbac.{Options, require_role}

-- `chain.Chain(auth, rbac.RequireRoleWithOptions(roles, opts...))(next)`
unfoldable pub role_route :
    (core : Core) {σ : Type 0}
    → Config core σ
    → TokenValidator core σ
    → List Pattern
    → List Text
    → Options σ
    → Handler σ
    → Handler σ
role_route core cfg validate patterns roles opts next =
    chain (handle core cfg validate patterns ∷ require_role core roles opts ∷ []) next
