-- ===== src/Chain/Laws.antt =====
-- What a chain does: the first middleware is outermost.
use txova_go_middleware.Base.{ℕ, zero, suc, ◌≡◌, refl, List, [], ◌∷◌, ◌++◌, length, get_elem?}
use txova_go_middleware.Chain.{chain_loop, chain, wrap}

module _ {H : Type 0} where
  -- One more middleware in front wraps what the loop makes of the others.
  chain_loop-cons :
      (m : H → H) (ms : List (H → H)) (n : ℕ) (next : H)
      → chain_loop (m ∷ ms) (suc n) next ≡ m (chain_loop ms n next)
  unfolding chain_loop
  chain_loop-cons m ms zero next = refl
  chain_loop-cons m ms (suc n) next = chain_loop-cons m ms n (wrap (get_elem? ms n) next)

  -- The documented composition: the first middleware is applied last, around all the others.
  pub chain-cons :
      (m : H → H) (ms : List (H → H)) (next : H) → chain (m ∷ ms) next ≡ m (chain ms next)
  unfolding chain
  chain-cons m ms next = chain_loop-cons m ms (length ms) next

  pub chain-nil : (next : H) → chain [] next ≡ next
  unfolding chain
  chain-nil next = refl

  -- A chain of two lists in a row is the chain of the first around the chain of the second.
  chain-append :
      (ms ns : List (H → H)) (next : H) → chain (ms ++ ns) next ≡ chain ms (chain ns next)
  chain-append [] ns next = rw chain-nil
  chain-append (m ∷ ms) ns next = simp (chain-cons, chain-append ms ns next)
