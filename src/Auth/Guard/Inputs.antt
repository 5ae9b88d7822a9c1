-- ===== src/Auth/Guard/Inputs.antt =====
-- Which paths the middleware excludes, and what claims add to a context.
use txova_go_middleware.Base.{
  ◌≡◌, true, none, some, List, [], ◌∷◌, ◌==◌, if◌then◌else◌, arith, Any, Holds, Text, Text_eq,
  contains_iff, ◌⊎◌, ◌↔◌,
}
use txova_go_middleware.Context.{
  Claims, Context, with_claims, with_user_id, with_user_type, with_roles,
}
use txova_go_middleware.Context.Laws.{View, view}
use txova_go_middleware.Auth.Guard.{Pattern, any_match, should_exclude, inject, is_empty}

any_match_iff :
    (patterns : List Pattern) (path : Text)
    → (any_match patterns path ≡ true) ↔ Any (λ re. re path ≡ true) patterns
unfolding any_match
any_match_iff [] path = ground arith
any_match_iff (re ∷ patterns) path = ground (arith, any_match_iff patterns path)

-- The path is excluded exactly if it is one of the listed paths or a pattern matches it.
pub should_exclude_iff :
    (path : Text) (paths : List Text) (patterns : List Pattern)
    → (should_exclude path paths patterns ≡ true)
      ↔ (Holds paths path ⊎ Any (λ re. re path ≡ true) patterns)
unfolding should_exclude
should_exclude_iff path paths patterns =
    ground (arith, contains_iff paths path, any_match_iff patterns path)

-- What the values of valid claims add to a view: each value that is not empty replaces its own.
abbrev pub with_claims_view : Claims → View → View
with_claims_view c v = record {
  user_id = if c.user_id == [] then v.user_id else (c.user_id, true);
  user_type = if c.user_type == [] then v.user_type else (c.user_type, true);
  roles = if is_empty c.roles then v.roles else (c.roles, true);
  claims = (some c, true);
  request_id = v.request_id;
}

-- The context that a validated request goes on with.
unfoldable pub claims_context : Context → Claims → Context
claims_context ctx c = elim (with_claims (some ctx) (some c)) [
  | none ↦ ctx
  | some ctx' ↦ inject ctx' c
]

pub view-claims_context :
    (ctx : Context) (c : Claims)
    → view (some (claims_context ctx c)) ≡ with_claims_view c (view (some ctx))
unfolding claims_context with_claims inject view with_user_id with_user_type with_roles
view-claims_context ctx c = ground arith
