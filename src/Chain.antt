-- ===== src/Chain.antt =====
-- chain/chain.go: `Chain`, over any type of handlers. The groups are in the module Chain.Group.
pub mod Slice
pub mod Group
pub mod Laws
use txova_go_middleware.Base.{ℕ, zero, suc, Option, none, some, List, get_elem?, length}

module _ {H : Type 0} where
  -- `next = middlewares[i](next)`; the loop's indices are in range.
  abbrev wrap : Option (H → H) → H → H
  wrap none next = next
  wrap (some m) next = m next

  -- The loop `for i := len(middlewares) - 1; i >= 0; i--`, with `n` rounds left.
  unfoldable pub chain_loop : List (H → H) → ℕ → H → H
  chain_loop middlewares zero next = next
  chain_loop middlewares (suc i) next =
      chain_loop middlewares i (wrap (get_elem? middlewares i) next)

  unfoldable pub chain : List (H → H) → H → H
  unfolding chain_loop
  chain middlewares next = chain_loop middlewares (length middlewares) next
