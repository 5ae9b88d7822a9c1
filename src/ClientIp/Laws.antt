-- ===== src/ClientIp/Laws.antt =====
-- Which address a request comes from.
use txova_go_middleware.Base.{
  All-append, suc, ◌+◌, ◌≡◌, ◌≢◌, ◌⊎◌, inl, inr, ap, sym, ◌∙◌, refl, false, some, [], ◌∷◌, ◌++◌,
  arith, length, drop, take-append, drop-append, Text, Text_eq, text_eq_iff, text_eq_refl,
  index-append, index-eq-none, first_occurrence, Bool-cases, text_eq, ne_of_text_eq,
  last_index-append, Lacks, trim_space, append_assoc, length-append,
}
use txova_go_middleware.Http.Headers.{header_get}
use txova_go_middleware.Http.Program.{Request}
use txova_go_middleware.ClientIp.{
  starts_bracket, split_host_port, forwarded_for, real_ip, first_forwarded, get_client_ip,
}

-- A text with no bracket and no colon.
abbrev pub IsPlainPart : Text → Type 0
IsPlainPart s = Lacks b':' s × Lacks b'[' s × Lacks b']' s

starts_bracket_of_Lacks : (s t : Text) → Lacks b'[' s → starts_bracket (s ++ b':' ∷ t) ≡ false
unfolding starts_bracket
starts_bracket_of_Lacks [] t h = refl
starts_bracket_of_Lacks (c ∷ s) t h = ground arith

-- `host:port`
split_host_port_plain :
    (host port : Text)
    → IsPlainPart host
    → IsPlainPart port
    → split_host_port (host ++ b':' ∷ port) ≡ some host
unfolding split_host_port
split_host_port_plain host port h p =
    let text : Text = host ++ b':' ∷ port in
    ground (
      arith,
      last_index-append host port b':' p.0,
      starts_bracket_of_Lacks host port h.1,
      take-append host (b':' ∷ port),
      index-eq-none host b':' h.0,
      index-eq-none text b'['
          (All-append (λ c. c ≢ b'[') host (b':' ∷ port) h.1 (ground arith, p.1)),
      index-eq-none text b']'
          (All-append (λ c. c ≢ b']') host (b':' ∷ port) h.2 (ground arith, p.2)),
    )

drop_bracketed :
    (host rest : Text) → drop (suc (length host) + 1) (b'[' ∷ host ++ b']' ∷ rest) ≡ rest
drop_bracketed host rest =
    let count : suc (length host) + 1 ≡ length (b'[' ∷ host ++ b']' ∷ []) =
      omega (arith, length-append host (b']' ∷ [])) in
    let opened : Text = b'[' ∷ host ++ b']' ∷ [] in
    rw count (
      ap (drop (length opened)) (sym (append_assoc (b'[' ∷ host) (b']' ∷ []) rest))
      ∙ drop-append opened rest)

-- `[host]:port`, with any colons in the host.
split_host_port_bracketed :
    (host port : Text)
    → Lacks b'[' host
    → Lacks b']' host
    → IsPlainPart port
    → split_host_port (b'[' ∷ host ++ b']' ∷ b':' ∷ port) ≡ some host
unfolding split_host_port
split_host_port_bracketed host port h k p =
    let opened : Text = b'[' ∷ host in
    let text : Text = opened ++ b']' ∷ b':' ∷ port in
    let split : opened ++ b']' ∷ [] ++ b':' ∷ port ≡ text =
      append_assoc opened (b']' ∷ []) (b':' ∷ port) in
    ground (
      arith,
      rw split at (last_index-append (opened ++ b']' ∷ []) port b':' p.0),
      length-append host (b']' ∷ []),
      index-append opened (b':' ∷ port) b']' (ground arith, k),
      take-append host (b']' ∷ b':' ∷ port),
      drop_bracketed host (b':' ∷ port),
      index-eq-none (host ++ b']' ∷ b':' ∷ port) b'[' (
          All-append (λ c. c ≢ b'[') host (b']' ∷ b':' ∷ port) h
            (ground arith, (ground arith, p.1))),
      index-eq-none (b':' ∷ port) b']' (ground arith, p.2),
    )

abbrev pub header_value : Request → Text → Text
header_value r name = header_get r.header name

-- When X-Forwarded-For begins with an entry that is not empty and holds no comma, and that is all or
-- ends at a comma, the client's address is that entry without the white space around it.
get_client_ip_forwarded :
    (r : Request) (entry others : Text)
    → entry ≢ []
    → Lacks b',' entry
    → (header_value r forwarded_for ≡ entry ++ b',' ∷ others)
      ⊎ (header_value r forwarded_for ≡ entry)
    → get_client_ip r ≡ trim_space entry
unfolding get_client_ip
get_client_ip_forwarded r [] others n h e = absurd (n refl)
get_client_ip_forwarded r (c ∷ s) others n h (inl e) =
    rw (e, first_forwarded)
      (ground (
        arith,
        index-append (c ∷ s) others b',' h,
        take-append s (b',' ∷ others),
        text_eq_iff (c ∷ s ++ b',' ∷ others) [],
      ))
get_client_ip_forwarded r (c ∷ s) others n h (inr e) =
    ground (arith, index-eq-none (c ∷ s) b',' h, text_eq_iff (c ∷ s) [])

-- One that begins with a comma is taken as a whole.
get_client_ip_comma :
    (r : Request) (others : Text)
    → header_value r forwarded_for ≡ b',' ∷ others
    → get_client_ip r ≡ trim_space (b',' ∷ others)
unfolding get_client_ip
get_client_ip_comma r others e =
    rw (e, first_forwarded)
      (ground (arith, index-append [] others b',' tt, text_eq_iff (b',' ∷ others) []))

get_client_ip_real :
    (r : Request)
    → header_value r forwarded_for ≡ []
    → header_value r real_ip ≢ []
    → get_client_ip r ≡ trim_space (header_value r real_ip)
unfolding get_client_ip
get_client_ip_real r none_forwarded given =
    ground (arith, text_eq_refl [], text_eq_iff (header_value r real_ip) [])

-- For a request with one of the two headers: either X-Forwarded-For is an entry that is not empty
-- and holds no comma, or such an entry, a comma and anything, and the client's address is that entry
-- without the white space around it; or it begins with a comma, and the address is all of it,
-- without the white space around it; or there is no X-Forwarded-For, and the address is X-Real-IP
-- without the white space around it.
pub get_client_ip_headers :
    (r : Request)
    → (header_value r forwarded_for ≢ []) ⊎ (header_value r real_ip ≢ [])
    → ((entry : Text) × (entry ≢ [])
        × Lacks b',' entry
        × ((header_value r forwarded_for ≡ entry)
            ⊎ ((others : Text) × (header_value r forwarded_for ≡ entry ++ b',' ∷ others)))
        × (get_client_ip r ≡ trim_space entry))
      ⊎ ((others : Text) × (header_value r forwarded_for ≡ b',' ∷ others)
          × (get_client_ip r ≡ trim_space (b',' ∷ others)))
      ⊎ ((header_value r forwarded_for ≡ [])
          × (get_client_ip r ≡ trim_space (header_value r real_ip)))
get_client_ip_headers r given =
    let xff = header_value r forwarded_for in
    elim (first_occurrence xff b',') [
      | inr ([], others, e, lacks) ↦ inr (inl (others, e, get_client_ip_comma r others e))
      | inr (c ∷ entry, others, e, lacks) ↦
          let present : c ∷ entry ≢ [] = λ h. cc in
          inl (
            c ∷ entry,
            present,
            lacks,
            inr (others, e),
            get_client_ip_forwarded r (c ∷ entry) others present lacks (inl e),
          )
      | inl lacks ↦ elim (Bool-cases (text_eq xff [])) [
        | inl e ↦
            let missing = (text_eq_iff xff []).0 e in
            inr (
              inr (
                missing,
                get_client_ip_real r missing
                    (elim given [ inl h ↦ absurd (h missing) | inr h ↦ h ]),
              ))
        | inr n ↦
            let present = ne_of_text_eq xff [] n in
            inl (
              xff,
              present,
              lacks,
              inl refl,
              get_client_ip_forwarded r xff [] present lacks (inr refl),
            )
      ]
    ]

-- For a request with neither header, the client's address is the host of the connection's
-- `host:port` or `[host]:port`, where the host of the second form may hold colons but no brackets,
-- and the host of the first and the port hold neither.
pub get_client_ip_direct :
    (r : Request) (host port : Text)
    → header_value r forwarded_for ≡ []
    → header_value r real_ip ≡ []
    → IsPlainPart port
    → ((r.remote_addr ≡ host ++ b':' ∷ port) × IsPlainPart host)
      ⊎ ((r.remote_addr ≡ b'[' ∷ host ++ b']' ∷ b':' ∷ port) × Lacks b'[' host × Lacks b']' host)
    → get_client_ip r ≡ host
unfolding get_client_ip
get_client_ip_direct r host port f x p (inl (e, h)) =
    ground (arith, split_host_port_plain host port h p, text_eq_refl [])
get_client_ip_direct r host port f x p (inr (e, h, k)) =
    ground (arith, split_host_port_bracketed host port h k p, text_eq_refl [])
