-- ===== src/ClientIp.antt =====
-- httputil.go: `GetClientIP`, and package net's `SplitHostPort`, which it calls.
pub mod Laws
use txova_go_middleware.Base.{
  ℕ, suc, ◌+◌, ◌-◌, Bool, true, false, not, ◌&&◌, ◌||◌, Option, none, some, List, [], ◌∷◌, ltb,
  ◌==◌, ℕ_eq, if◌then◌else◌, length, take, drop, get_elem?, reverse, Text, Text_eq, codes, index,
  last_index, trim_space, text_eq,
}
use txova_go_middleware.Http.Headers.{Header, header_get}
use txova_go_middleware.Http.Program.{Request}

abbrev pub is_some {ℓ} : {A : Type ℓ} → Option A → Bool
is_some none = false
is_some (some _) = true

abbrev pub slice : Text → ℕ → ℕ → Text
slice s i j = take (j - i) (drop i s)

-- The last tests of `SplitHostPort`: no bracket stands in `s[j:]` or `s[k:]`.
no_bracket : Text → ℕ → ℕ → Text → Option Text
no_bracket s j k host =
    if is_some (index (drop j s) b'[') || is_some (index (drop k s) b']') then none else some host

-- A bracketed host ends where the port's colon, at `i`, begins.
split_bracketed : Text → ℕ → Option Text
unfolding no_bracket
split_bracketed s i = elim (index s b']') [
  | none ↦ none
  | some end ↦ if end + 1 == i then no_bracket s 1 (end + 1) (slice s 1 end) else none
]

split_plain : Text → ℕ → Option Text
unfolding no_bracket
split_plain s i =
    let host = take i s in if is_some (index host b':') then none else no_bracket s 0 0 host

starts_bracket : Text → Bool
starts_bracket [] = false
starts_bracket (c ∷ s) = c == b'['

-- `host, _, err := net.SplitHostPort(s)`; `none` for an error.
unfoldable pub split_host_port : Text → Option Text
unfolding split_bracketed split_plain starts_bracket
split_host_port s = elim (last_index s b':') [
  | none ↦ none
  | some i ↦ if starts_bracket s then split_bracketed s i else split_plain s i
]

-- `strings.HasPrefix(s, "[")` and `strings.HasSuffix(s, "]")`
abbrev pub has_prefix : Text → ℕ → Bool
has_prefix [] c = false
has_prefix (b ∷ s) c = b == c

abbrev pub has_suffix : Text → ℕ → Bool
has_suffix s c = has_prefix (reverse s) c

-- The address when `SplitHostPort` fails. A lone bracket is no `[…]`, as one byte cannot be both.
unfoldable pub bare_address : Text → Text
bare_address addr =
    if has_prefix addr b'[' && has_suffix addr b']' then slice addr 1 (length addr - 1) else addr

abbrev host_or_bare : Option Text → Text → Text
host_or_bare none addr = bare_address addr
host_or_bare (some host) addr = host

abbrev pub forwarded_for : Text
forwarded_for = codes "X-Forwarded-For"

abbrev pub real_ip : Text
real_ip = codes "X-Real-IP"

-- `if idx := strings.Index(xff, ","); idx > 0`
unfoldable pub first_forwarded : Text → Text
first_forwarded xff = elim (index xff b',') [
  | none ↦ trim_space xff
  | some idx ↦ if ltb 0 idx then trim_space (take idx xff) else trim_space xff
]

unfoldable pub get_client_ip : Request → Text
unfolding first_forwarded
get_client_ip r =
    let xff = header_get r.header forwarded_for in
    let xri = header_get r.header real_ip in
    if not (xff == [])
    then first_forwarded xff
    else if not (xri == [])
    then trim_space xri
    else host_or_bare (split_host_port r.remote_addr) r.remote_addr
