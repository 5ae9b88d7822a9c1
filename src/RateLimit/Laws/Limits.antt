-- ===== src/RateLimit/Laws/Limits.antt =====
-- The limit of a new limiter.
use mathlib.Core.Path.{subst}
use txova_go_middleware.Base.{
  ◌≡◌, ◌<◌, ◌^◌, ◌%◌, ap, ◌∙◌, sym, inl, inr, ◌↔◌, ltb, Bool-cases, List, [], ◌∷◌, ◌++◌, arith,
}
use txova_go_middleware.Base.Int.{ℤ, pos, negsuc, ◌+ℤ◌}
use txova_go_middleware.Http.Logging.{apply_options, apply_options-append}
use txova_go_middleware.RateLimit.{
  Config, RedisClient, wrap_int, new_limiter, with_limit, with_burst_allowance,
}

-- The values of `int` on 64 bits.
abbrev pub IsInt : ℤ → Type 0
IsInt (pos n) = n < 2 ^ 63
IsInt (negsuc n) = n < 2 ^ 63

wrap_int-IsInt : (x : ℤ) → IsInt (wrap_int x)
unfolding wrap_int
wrap_int-IsInt (pos n) = elim (Bool-cases (ltb (n % 2 ^ 64) (2 ^ 63))) [
  | inl small ↦ rw small (ground arith)
  | inr large ↦ rw large (ground arith)
]
wrap_int-IsInt (negsuc n) = elim (Bool-cases (ltb (n % 2 ^ 64) (2 ^ 63))) [
  | inl small ↦ rw small (ground arith)
  | inr large ↦ rw large (ground arith)
]

wrap_int_eq : (x : ℤ) → IsInt x → wrap_int x ≡ x
unfolding wrap_int
wrap_int_eq (pos n) h = ground arith
wrap_int_eq (negsuc n) h = ground arith

new_limiter-limit :
    {σ : Type 0} (client : RedisClient σ) (opts : List (Config → Config)) (limit burst : ℤ)
    → (new_limiter client (opts ++ (with_limit limit ∷ with_burst_allowance burst ∷ []))).limit
      ≡ wrap_int (limit +ℤ burst)
unfolding new_limiter apply_options with_limit with_burst_allowance
new_limiter-limit client opts limit burst =
    ap (λ (c : Config). wrap_int (c.limit +ℤ c.burst_allowance))
      (apply_options-append opts (with_limit limit ∷ with_burst_allowance burst ∷ []) _)

-- Whatever options came before: a new limiter with a limit and a burst allowance has a limit that
-- is an `int` of 64 bits, and it is the sum of the two exactly if the sum is such an `int`.
pub new_limiter_limit :
    {σ : Type 0} (client : RedisClient σ) (opts : List (Config → Config)) (limit burst : ℤ)
    → let l = new_limiter client (opts ++ (with_limit limit ∷ with_burst_allowance burst ∷ [])) in
      IsInt l.limit × ((l.limit ≡ limit +ℤ burst) ↔ IsInt (limit +ℤ burst))
new_limiter_limit client opts limit burst =
    let sum = new_limiter-limit client opts limit burst in
    let inside = subst IsInt (sym sum) (wrap_int-IsInt (limit +ℤ burst)) in
    (inside, (λ e. subst IsInt e inside, λ fits. sum ∙ wrap_int_eq (limit +ℤ burst) fits))
