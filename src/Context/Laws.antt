-- ===== src/Context/Laws.antt =====
-- What a context remembers: each setter is read back, and touches no other value.
use txova_go_middleware.Base.{◌≡◌, refl, true, Bool, Option, none, some, List, Text}
use txova_go_middleware.Context.{
  Claims, Context, user_id_from_context, with_user_id, user_type_from_context, with_user_type,
  roles_from_context, with_roles, request_id_from_context, with_request_id, claims_from_context,
  with_claims,
}

-- All that the readers see of a context.
pub record View : Type 0 where
  pub user_id : Text × Bool
  pub user_type : Text × Bool
  pub roles : List Text × Bool
  pub claims : Option Claims × Bool
  pub request_id : Text

unfoldable pub view : Option Context → View
unfolding user_id_from_context user_type_from_context roles_from_context claims_from_context
    request_id_from_context
view ctx = record {
  user_id = user_id_from_context ctx;
  user_type = user_type_from_context ctx;
  roles = roles_from_context ctx;
  claims = claims_from_context ctx;
  request_id = request_id_from_context ctx;
}

-- Each setter, on a nil context too, gives a context in which its own reader finds the value that
-- was stored (with the flag true, where it has one), and every other reader finds what it found
-- before.
pub view_with :
    (ctx : Option Context) (text : Text) (texts : List Text)
    → (view (some (with_user_id ctx text)) ≡ record (view ctx) { user_id = (text, true) })
      × (view (some (with_user_type ctx text)) ≡ record (view ctx) { user_type = (text, true) })
      × (view (some (with_roles ctx texts)) ≡ record (view ctx) { roles = (texts, true) })
      × (view (some (with_request_id ctx text)) ≡ record (view ctx) { request_id = text })
unfolding view with_user_id with_user_type with_roles with_request_id
view_with none text texts = (refl, refl, refl, refl)
view_with (some ctx) text texts = (refl, refl, refl, refl)

-- `WithClaims` has a result exactly on a context that is not nil, and there only the claims change.
pub view-with_claims :
    (ctx : Context) (c : Option Claims)
    → (with_claims none c ≡ none)
      × ((ctx' : Context) × (with_claims (some ctx) c ≡ some ctx')
          × (view (some ctx') ≡ record (view (some ctx)) { claims = (c, true) }))
unfolding view with_claims
view-with_claims ctx c = (refl, (_, refl, refl))
