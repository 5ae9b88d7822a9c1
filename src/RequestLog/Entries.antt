-- ===== src/RequestLog/Entries.antt =====
-- What the entry for a request says, field by field.
use mathlib.Core.Path.{subst}
use txova_go_middleware.Base.{
  ℕ, ◌+◌, ◌*◌, ◌/◌, ◌≡◌, ◌≢◌, ◌≤◌, ◌<◌, ◌⊎◌, inl, inr, refl, ap, true, false, Option, none, some,
  List, [], ◌∷◌, map, arith, leb, ◌==◌, if◌then◌else◌, Bool-cases, Text, Text_eq, text_eq,
  text_eq_iff, ne_of_text_eq, codes,
}
use txova_go_middleware.Base.Int.{ℤ, pos, negsuc, ◌≤ℤ◌, ◌-ℤ◌}
use txova_go_middleware.Context.{request_id_from_context, user_id_from_context}
use txova_go_middleware.ClientIp.{get_client_ip}
use txova_go_middleware.Http.Headers.{header_get}
use txova_go_middleware.Http.Program.{Request}
use txova_go_middleware.Http.Logging.{
  Level, info, warn, error, Attribute, text, number, flag, Entry,
}
use txova_go_middleware.RequestLog.{
  Config, ResponseWriter, is_slow, level_of, milliseconds, entry_of,
}
use txova_go_middleware.RequestLog.Mask.{mask_query_params}

-- The value that an entry has for a name.
abbrev pub value_of : Text → List (Text × Attribute) → Option Attribute
value_of name [] = none
value_of name ((key, v) ∷ rest) = if key == name then some v else value_of name rest

-- Milliseconds, rounded toward zero.
abbrev pub IsMilliseconds : ℤ → ℤ → Type 0
IsMilliseconds (pos n) ms = (m : ℕ) × (ms ≡ pos m) × (m * 1000000 ≤ n) × (n < m * 1000000 + 1000000)
IsMilliseconds (negsuc n) ms =
    (m : ℕ) × (ms ≡ pos 0 -ℤ pos m) × (m * 1000000 ≤ n + 1) × (n + 1 < m * 1000000 + 1000000)

-- A threshold is set, and the duration is above it.
abbrev pub IsSlow : Config → ℤ → Type 0
IsSlow cfg duration = (¬ (cfg.slow_threshold ≤ℤ pos 0)) × (¬ (duration ≤ℤ cfg.slow_threshold))

-- The level, by the duration and the status.
abbrev pub HasLevel : Config → ℤ → ℕ → Level → Type 0
HasLevel cfg duration status level =
    (IsSlow cfg duration × (level ≡ warn))
    ⊎ ((¬ IsSlow cfg duration)
        × (((500 ≤ status) × (level ≡ error))
            ⊎ ((400 ≤ status) × (status < 500) × (level ≡ warn))
            ⊎ ((status < 400) × (level ≡ info))))

milliseconds-IsMilliseconds : (d : ℤ) → IsMilliseconds d (milliseconds d)
milliseconds-IsMilliseconds (pos n) = (n / 1000000, refl, omega arith, omega arith)
milliseconds-IsMilliseconds (negsuc n) = ((n + 1) / 1000000, refl, omega arith, omega arith)

is_slow-cases :
    (cfg : Config) (d : ℤ)
    → ((is_slow cfg d ≡ true) × IsSlow cfg d) ⊎ ((is_slow cfg d ≡ false) × (¬ IsSlow cfg d))
unfolding is_slow
is_slow-cases cfg d = elim (Bool-cases (is_slow cfg d)) [
  | inl slow ↦ inl (slow, (ground arith, ground arith))
  | inr quick ↦ inr (quick, λ h. ground arith)
]

level_of-HasLevel :
    (cfg : Config) (d : ℤ) (status : ℕ) → HasLevel cfg d status (level_of cfg d status)
unfolding level_of
level_of-HasLevel cfg d status = elim (is_slow-cases cfg d) [
  | inl (slow, h) ↦ rw slow (inl (h, refl))
  | inr (quick, h) ↦ rw quick (
      inr (
        h,
        elim (Bool-cases (leb 500 status)) [
          | inl server ↦ rw server (inl (ground arith, refl))
          | inr below ↦ rw below (elim (Bool-cases (leb 400 status)) [
            | inl client ↦ rw client (inr (inl (ground arith, ground arith, refl)))
            | inr fine ↦ rw fine (inr (inr (ground arith, refl)))
          ])
        ],
      ))
]

module _ (to_lower : Text → Text) (cfg : Config) (r : Request) (duration : ℤ) where
  -- The entry is about this request, which took so long and was answered with this status and so
  -- many bytes.
  pub record Describes (status bytes : ℕ) (e : Entry) : Type 0 where
    pub in_context : e.context ≡ some r.context
    pub has_message : e.message ≡ codes "http request"
    pub has_level : HasLevel cfg duration status e.level
    pub has_method : value_of (codes "method") e.attributes ≡ some (text r.method)
    pub has_path : value_of (codes "path") e.attributes ≡ some (text r.path)
    pub has_status : value_of (codes "status") e.attributes ≡ some (number (pos status))
    pub has_duration :
        (ms : ℤ) × IsMilliseconds duration ms
        × (value_of (codes "duration_ms") e.attributes ≡ some (number ms))
    pub has_request_id :
        value_of (codes "request_id") e.attributes
        ≡ some (text (request_id_from_context (some r.context)))
    pub has_user_id :
        value_of (codes "user_id") e.attributes
        ≡ some (text (user_id_from_context (some r.context)).0)
    pub has_ip : value_of (codes "ip") e.attributes ≡ some (text (get_client_ip r))
    pub has_user_agent :
        value_of (codes "user_agent") e.attributes
        ≡ some (text (header_get r.header (codes "User-Agent")))
    pub has_bytes_in : value_of (codes "bytes_in") e.attributes ≡ some (number r.content_length)
    pub has_bytes_out : value_of (codes "bytes_out") e.attributes ≡ some (number (pos bytes))
    pub has_query :
        ((r.raw_query ≡ []) × (value_of (codes "query") e.attributes ≡ none))
        ⊎ ((r.raw_query ≢ [])
            × (value_of (codes "query") e.attributes
                ≡ some
                    (text (mask_query_params to_lower (map to_lower cfg.mask_params) r.raw_query))))
    pub has_slow :
        (IsSlow cfg duration × (value_of (codes "slow") e.attributes ≡ some (flag true)))
        ⊎ ((¬ IsSlow cfg duration) × (value_of (codes "slow") e.attributes ≡ none))

  module _ {σ : Type 0} (now : σ → ℤ) (t : ResponseWriter) where
    query_if_any :
        let e = entry_of to_lower now cfg r t duration in
        ((r.raw_query ≡ []) × (value_of (codes "query") e.attributes ≡ none))
        ⊎ ((r.raw_query ≢ [])
            × (value_of (codes "query") e.attributes
                ≡ some
                    (text (mask_query_params to_lower (map to_lower cfg.mask_params) r.raw_query))))
    unfolding entry_of text_eq
    query_if_any = elim (Bool-cases (text_eq r.raw_query [])) [
      | inr e ↦ inr (ne_of_text_eq r.raw_query [] e, rw e refl)
      | inl e ↦
          let empty = (text_eq_iff r.raw_query []).0 e in
          inl (
            empty,
            rw e (elim (is_slow-cases cfg duration) [
              | inl (slow, h) ↦ rw slow refl
              | inr (quick, h) ↦ rw quick refl
            ]),
          )
    ]

    marked_if_above :
        let e = entry_of to_lower now cfg r t duration in
        (IsSlow cfg duration × (value_of (codes "slow") e.attributes ≡ some (flag true)))
        ⊎ ((¬ IsSlow cfg duration) × (value_of (codes "slow") e.attributes ≡ none))
    unfolding entry_of text_eq
    marked_if_above = elim (is_slow-cases cfg duration) [
      | inl (slow, h) ↦ inl (
        h,
        elim (Bool-cases (text_eq r.raw_query [])) [
          | inl e ↦ rw (e, slow) refl
          | inr e ↦ rw (e, slow) refl
        ],
      )
      | inr (quick, h) ↦ inr (
        h,
        elim (Bool-cases (text_eq r.raw_query [])) [
          | inl e ↦ rw (e, quick) refl
          | inr e ↦ rw (e, quick) refl
        ],
      )
    ]

    pub entry_of-Describes :
        (status bytes : ℕ)
        → t.status ≡ status
        → t.bytes_written ≡ bytes
        → Describes status bytes (entry_of to_lower now cfg r t duration)
    unfolding entry_of text_eq
    entry_of-Describes status bytes sent counted = record {
      in_context = refl;
      has_message = refl;
      has_level =
          subst (λ n. HasLevel cfg duration n (level_of cfg duration t.status)) sent
            (level_of-HasLevel cfg duration t.status);
      has_method = refl;
      has_path = refl;
      has_status = ap (λ n. some (number (pos n))) sent;
      has_duration = (milliseconds duration, milliseconds-IsMilliseconds duration, refl);
      has_request_id = refl;
      has_user_id = refl;
      has_ip = refl;
      has_user_agent = refl;
      has_bytes_in = refl;
      has_bytes_out = ap (λ n. some (number (pos n))) counted;
      has_query = query_if_any;
      has_slow = marked_if_above;
    }
