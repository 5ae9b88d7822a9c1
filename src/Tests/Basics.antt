-- ===== src/Tests/Basics.antt =====
-- Error codes, contexts, addresses, chains and request IDs.
use txova_go_middleware.Base.{
  Text, ◌⊎◌, ℕ, ◌+◌, ◌≡◌, ◌≢◌, inl, refl, true, Option, some, List, [], ◌∷◌, ◌++◌, arith, text_eq,
  codes, ne_of_text_eq, trim_space, Lacks,
}
use txova_go_middleware.Context.{
  Context, background, derived, with_user_id, with_user_type, with_roles, with_request_id,
}
use txova_go_middleware.Context.Laws.{view, view_with}
use txova_go_middleware.Http.Headers.{header_get, canonical}
use txova_go_middleware.Http.Program.{Request, load, store, ret}
use txova_go_middleware.Http.Server.{Response, returned, run, new_response}
use txova_go_middleware.ClientIp.{forwarded_for, get_client_ip, real_ip}
use txova_go_middleware.ClientIp.Laws.{get_client_ip_headers, get_client_ip_direct}
use txova_go_middleware.Chain.Group.{World, members, extend}
use txova_go_middleware.Chain.Group.Laws.{IsWellFormed, IsAlone, extend_isolated}
use txova_go_middleware.RequestId.{Generator, configure, middleware}
use txova_go_middleware.RequestId.Laws.{Receives, middleware_identifies}
use txova_go_middleware.Tests.Samples.{conn, get, plain, serve}

abbrev signed_in : Option Context
signed_in = some (derived (with_user_id (some background) (codes "u1")))

view_with_example :
    (view (some (with_user_id signed_in (codes "u2")))
      ≡ record (view signed_in) { user_id = (codes "u2", true) })
    × (view (some (with_user_type signed_in (codes "u2")))
        ≡ record (view signed_in) { user_type = (codes "u2", true) })
    × (view (some (with_roles signed_in (codes "driver" ∷ [])))
        ≡ record (view signed_in) { roles = (codes "driver" ∷ [], true) })
    × (view (some (with_request_id signed_in (codes "u2")))
        ≡ record (view signed_in) { request_id = codes "u2" })
view_with_example = view_with signed_in (codes "u2") (codes "driver" ∷ [])

abbrev proxied : Request
proxied = get ((codes "X-Forwarded-For", codes " 10.0.0.1, 10.0.0.2" ∷ []) ∷ []) background

has_forwarded : header_get proxied.header forwarded_for ≢ []
unfolding header_get canonical text_eq
has_forwarded = ne_of_text_eq _ _ refl

get_client_ip_headers_example :
    let xff = header_get proxied.header forwarded_for in
    let xri = header_get proxied.header real_ip in
    ((entry : Text) × (entry ≢ [])
      × Lacks b',' entry
      × ((xff ≡ entry) ⊎ ((others : Text) × (xff ≡ entry ++ b',' ∷ others)))
      × (get_client_ip proxied ≡ trim_space entry))
    ⊎ ((others : Text) × (xff ≡ b',' ∷ others)
        × (get_client_ip proxied ≡ trim_space (b',' ∷ others)))
    ⊎ ((xff ≡ []) × (get_client_ip proxied ≡ trim_space xri))
get_client_ip_headers_example = get_client_ip_headers proxied (inl has_forwarded)

no_forwarded : header_get plain.header forwarded_for ≡ []
unfolding header_get
no_forwarded = refl

no_real_ip : header_get plain.header real_ip ≡ []
unfolding header_get
no_real_ip = refl

host-Lacks :
    Lacks b':' (codes "192.168.1.1")
    × Lacks b'[' (codes "192.168.1.1")
    × Lacks b']' (codes "192.168.1.1")
host-Lacks = ground arith

port-Lacks : Lacks b':' (codes "12345") × Lacks b'[' (codes "12345") × Lacks b']' (codes "12345")
port-Lacks = ground arith

get_client_ip_direct_example : get_client_ip plain ≡ codes "192.168.1.1"
get_client_ip_direct_example =
    get_client_ip_direct plain (codes "192.168.1.1") (codes "12345") no_forwarded no_real_ip
      port-Lacks (inl (refl, host-Lacks))

-- Middlewares that add a number in front.
abbrev first : List ℕ → List ℕ
first h = 1 ∷ h

abbrev second : List ℕ → List ℕ
second h = 2 ∷ h

-- One group of two middlewares, with room for a third.
abbrev one_group : World (List ℕ)
one_group = record {
  heap = record { next = 1; array = λ p. first ∷ second ∷ first ∷ [] };
  group = λ g. record { at = 0; length_of = 2 };
  next_group = 1;
}

one_group-IsWellFormed : IsWellFormed one_group
one_group-IsWellFormed = record { allocated = λ g h. omega arith; inside = λ g h. omega arith }

extend_isolated_example :
    (members (extend [] 0 (second ∷ []) one_group).1 (extend [] 0 (second ∷ []) one_group).0
      ≡ members one_group 0 ++ second ∷ [])
    × (members (extend [] 0 (second ∷ []) one_group).1 0 ≡ members one_group 0)
    × IsWellFormed (extend [] 0 (second ∷ []) one_group).1
    × IsAlone (extend [] 0 (second ∷ []) one_group).1 (extend [] 0 (second ∷ []) one_group).0
extend_isolated_example =
    extend_isolated [] 0 (second ∷ []) one_group one_group-IsWellFormed (omega arith) 0
      (omega arith)

-- A generator that counts.
abbrev counter : Generator ℕ
counter = load (λ n. store (n + 1) (ret (codes "id" ++ n ∷ [])))

counted :
    run conn (configure counter []).generator 7 new_response
    ≡ record { end = returned (codes "id" ++ 7 ∷ []); state = 8; response = new_response }
unfolding configure run
counted = refl

middleware_identifies_example :
    let cfg = configure counter [] in
    let carried = header_get plain.header cfg.header_name in
    (id : Text) × (from : ℕ) × (((carried ≢ []) × (id ≡ carried) × (from ≡ 7))
      ⊎ ((carried ≡ []) × (id ≡ codes "id" ++ 7 ∷ []) × (from ≡ 8)))
    × (r' : Request) × (w' : Response) × Receives cfg plain r' new_response w' id
    × (run conn (middleware counter [] serve plain) 7 new_response ≡ run conn (serve r') from w')
middleware_identifies_example =
    middleware_identifies counter [] serve plain conn 7 new_response (codes "id" ++ 7 ∷ []) 8
      counted
