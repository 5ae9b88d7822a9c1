-- ===== src/Chain/Group.antt =====
-- chain/chain.go: `Group`. A group is a pointer to a struct with one slice; its methods take the
-- world of groups and arrays, and give back the world that they leave.
pub mod Laws
use txova_go_middleware.Base.{
  ℕ, suc, ◌+◌, ◌≡◌, ◌<◌, ◌≤◌, List, [], ◌∷◌, ◌++◌, ◌==◌, ℕ_eq, if◌then◌else◌, length,
}
use txova_go_middleware.Chain.{chain}
use txova_go_middleware.Chain.Slice.{Heap, Slice, elements, allocate, append}

-- `next_group` is the first free address of a group.
pub record World (H : Type 0) : Type 0 where
  pub heap : Heap (H → H)
  pub group : ℕ → Slice
  pub next_group : ℕ

abbrev pub set_group : (ℕ → Slice) → ℕ → Slice → ℕ → Slice
set_group f g s k = if g == k then s else f k

module _ {H : Type 0} where
  -- The middlewares that a group holds.
  abbrev pub members : World H → ℕ → List (H → H)
  members w g = elements w.heap (w.group g)

  abbrev add_group : Slice → World H → ℕ × World H
  add_group s w = (
    w.next_group,
    record w { group = set_group w.group w.next_group s; next_group = w.next_group + 1 },
  )

  -- `NewGroup(s...)` keeps the caller's slice.
  pub new_group : Slice → World H → ℕ × World H
  new_group s w = add_group s w

  -- `g.Use(middlewares...)`; it returns `g`. `spare` is as for `append`.
  pub use_all : List (H → H) → ℕ → List (H → H) → World H → World H
  use_all spare g middlewares w =
      let (s, heap) = append spare (w.group g) middlewares w.heap in
      record w { heap = heap; group = set_group w.group g s }

  -- `g.Then(handler)` and `g.ThenFunc(fn)`
  pub then_handler : ℕ → H → World H → H
  then_handler g handler w = chain (members w g) handler

  -- `g.Middleware()` keeps the slice, and reads it when it is applied, in the world of that time.
  pub middleware : ℕ → World H → World H → H → H
  middleware g w later next = chain (elements later.heap (w.group g)) next

  -- `g.Clone()`: `make` gives an array with no spare capacity.
  pub clone : ℕ → World H → ℕ × World H
  clone g w =
      let (s, heap) = allocate (members w g) [] w.heap in add_group s (record w { heap = heap })

  -- `g.Extend(middlewares...)`
  pub extend : List (H → H) → ℕ → List (H → H) → World H → ℕ × World H
  extend spare g middlewares w =
      let (copy, w') = clone g w in (copy, use_all spare copy middlewares w')
