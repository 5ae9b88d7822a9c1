-- ===== src/Context.antt =====
-- context.go: the context keys, and the functions that store and read the values of a request.
-- A context is the chain that `context.WithValue` builds; `none` stands for a nil context. The
-- copy that `WithRoles` makes has no counterpart, since lists here never change.
pub mod Laws
use txova_go_middleware.Base.{
  ◌≡◌, Bool, true, false, Option, none, some, List, [], Text, if◌then◌else◌,
}

-- auth/claims.go: the struct `Claims`. `registered` is the embedded `jwt.RegisteredClaims`, which
-- this repository does not declare: an opaque text.
pub record Claims : Type 0 where
  pub registered : Text
  pub user_id : Text
  pub user_type : Text
  pub roles : List Text
  pub permissions : List Text

pub data ContextKey : Type 0 where
  key_user_id key_user_type key_roles key_claims key_request_id : ContextKey

-- What the program stores under these keys; a `*Claims` may be nil.
pub data Value : Type 0 where
  string : Text → Value
  strings : List Text → Value
  claims : Option Claims → Value

-- `derived` is a context that another package derives: a key of another type, a deadline.
pub data Context : Type 0 where
  background : Context
  with_value : Context → ContextKey → Value → Context
  derived : Context → Context

-- The keys are constants of an integer type, numbered in this order.
unfoldable pub same_key : ContextKey → ContextKey → Bool
same_key key_user_id key_user_id = true
same_key key_user_type key_user_type = true
same_key key_roles key_roles = true
same_key key_claims key_claims = true
same_key key_request_id key_request_id = true
same_key _ _ = false

-- `ctx.Value(key)`: the value nearest to the leaf.
unfoldable pub value : Context → ContextKey → Option Value
unfolding same_key
value background k = none
value (derived ctx) k = value ctx k
value (with_value ctx j v) k = if same_key j k then some v else value ctx k

-- The type assertions `v, ok := x.(string)`, `x.([]string)` and `x.(*Claims)`.
abbrev pub as_string : Option Value → Text × Bool
as_string (some (string s)) = (s, true)
as_string _ = ([], false)

abbrev pub as_strings : Option Value → List Text × Bool
as_strings (some (strings ss)) = (ss, true)
as_strings _ = ([], false)

abbrev pub as_claims : Option Value → Option Claims × Bool
as_claims (some (claims c)) = (c, true)
as_claims _ = (none, false)

-- `if ctx == nil { ctx = context.Background() }`
abbrev pub or_background : Option Context → Context
or_background none = background
or_background (some ctx) = ctx

unfoldable pub user_id_from_context : Option Context → Text × Bool
unfolding value
user_id_from_context none = ([], false)
user_id_from_context (some ctx) = as_string (value ctx key_user_id)

unfoldable pub with_user_id : Option Context → Text → Context
with_user_id ctx user_id = with_value (or_background ctx) key_user_id (string user_id)

unfoldable pub user_type_from_context : Option Context → Text × Bool
unfolding value
user_type_from_context none = ([], false)
user_type_from_context (some ctx) = as_string (value ctx key_user_type)

unfoldable pub with_user_type : Option Context → Text → Context
with_user_type ctx user_type = with_value (or_background ctx) key_user_type (string user_type)

unfoldable pub roles_from_context : Option Context → List Text × Bool
unfolding value
roles_from_context none = ([], false)
roles_from_context (some ctx) = as_strings (value ctx key_roles)

unfoldable pub with_roles : Option Context → List Text → Context
with_roles ctx roles = with_value (or_background ctx) key_roles (strings roles)

abbrev value_or_empty : Text × Bool → Text
value_or_empty (v, true) = v
value_or_empty (v, false) = []

unfoldable pub request_id_from_context : Option Context → Text
unfolding value
request_id_from_context none = []
request_id_from_context (some ctx) = value_or_empty (as_string (value ctx key_request_id))

unfoldable pub with_request_id : Option Context → Text → Context
with_request_id ctx request_id = with_value (or_background ctx) key_request_id (string request_id)

-- auth/claims.go: `ClaimsFromContext` and `WithClaims`. `context.WithValue` panics on a nil
-- parent, which `WithClaims` does not replace: `none`.
unfoldable pub claims_from_context : Option Context → Option Claims × Bool
unfolding value
claims_from_context none = (none, false)
claims_from_context (some ctx) = as_claims (value ctx key_claims)

unfoldable pub with_claims : Option Context → Option Claims → Option Context
with_claims none c = none
with_claims (some ctx) c = some (with_value ctx key_claims (claims c))
