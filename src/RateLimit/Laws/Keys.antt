-- ===== src/RateLimit/Laws/Keys.antt =====
-- Who shares a rate limit by user.
use txova_go_middleware.Base.{
  ◌≡◌, ◌↔◌, sym, ap, ◌∙◌, ◌++◌, some, [], Text, Text_eq, codes, ◌==◌, if◌then◌else◌, arith,
}
use txova_go_middleware.Context.{user_id_from_context}
use txova_go_middleware.ClientIp.{get_client_ip}
use txova_go_middleware.Http.Program.{Request}
use txova_go_middleware.RateLimit.{key_by_user}

-- A user, or else the address of a client.
pub data Requester : Type 0 where
  user : Text → Requester
  address : Text → Requester

-- The user that the context names, if the ID is not empty.
abbrev pub requester : Request → Requester
requester r =
    let (user_id, found) = user_id_from_context (some r.context) in
    if found
    then if user_id == [] then address (get_client_ip r) else user user_id
    else address (get_client_ip r)

abbrev key_of : Requester → Text
key_of (user id) = codes "user:" ++ id
key_of (address ip) = codes "ip:" ++ ip

key_of_injective : (a b : Requester) → key_of a ≡ key_of b → a ≡ b
key_of_injective (user id) (user id') e = ap user (cc)
key_of_injective (address ip) (address ip') e = ap address (cc)
key_of_injective (user id) (address ip) e = absurd (ground arith)
key_of_injective (address ip) (user id) e = absurd (ground arith)

key_by_user-eq : (r : Request) → key_by_user r ≡ key_of (requester r)
unfolding key_by_user
key_by_user-eq r = ground arith

-- Two requests share a limit by user exactly if they have the same requester: a user ID and an
-- address never share one, whatever their texts.
pub key_by_user_iff :
    (r r' : Request) → (key_by_user r ≡ key_by_user r') ↔ (requester r ≡ requester r')
key_by_user_iff r r' = (
  λ e.
      key_of_injective (requester r) (requester r')
        (sym (key_by_user-eq r) ∙ e ∙ key_by_user-eq r'),
  λ e. key_by_user-eq r ∙ ap key_of e ∙ sym (key_by_user-eq r'),
)
