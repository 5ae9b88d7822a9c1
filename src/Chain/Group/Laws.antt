-- ===== src/Chain/Group/Laws.antt =====
-- A clone is independent of the group that it was made from, and so is an extension.
use txova_go_middleware.Base.{
  ℕ, ◌≡◌, ◌≢◌, ◌≤◌, ◌<◌, refl, ap, ◌∙◌, List, [], ◌++◌, arith, length, take, append-nil,
}
use txova_go_middleware.Chain.Slice.{Slice, elements, allocate}
use txova_go_middleware.Chain.Slice.Laws.{
  elements-append, array-append, append_inside, length-array_mono, take_front, update_self,
}
use txova_go_middleware.Chain.Group.{World, members, set_group, use_all, clone, extend}

-- Every group's slice lies inside an array that was allocated.
pub record IsWellFormed {H : Type 0} (w : World H) : Type 0 where
  pub allocated : (g : ℕ) → g < w.next_group → (w.group g).at < w.heap.next
  pub inside :
      (g : ℕ) → g < w.next_group → (w.group g).length_of ≤ length (w.heap.array (w.group g).at)

-- No other group uses the array of `g`.
abbrev pub IsAlone : {H : Type 0} → World H → ℕ → Type 0
IsAlone w g = (k : ℕ) → k < w.next_group → k ≢ g → (w.group k).at ≢ (w.group g).at

set_group_self : (f : ℕ → Slice) (g : ℕ) (s : Slice) → set_group f g s g ≡ s
set_group_self f g s = ground arith

module _ {H : Type 0} where
  module _ (spare : List (H → H)) (g : ℕ) (ms : List (H → H)) (w : World H) (wf : IsWellFormed w)
      (old : g < w.next_group) where
    pub use_all-IsWellFormed : IsWellFormed (use_all spare g ms w)
    unfolding use_all
    use_all-IsWellFormed =
        let appended =
          append_inside spare (w.group g) ms w.heap (wf.allocated g old) (wf.inside g old) in
        record {
          allocated = λ k h. ground (arith, appended, wf.allocated k h);
          inside = λ k h. ground (
            arith,
            appended,
            wf.inside k h,
            length-array_mono spare (w.group g) ms w.heap (w.group k).at (wf.inside g old)
                (wf.allocated k h),
          );
        }

    pub members-use_all : members (use_all spare g ms w) g ≡ members w g ++ ms
    unfolding use_all
    members-use_all = ground (arith, elements-append spare (w.group g) ms w.heap, wf.inside g old)

    pub members-use_all_other :
        (k : ℕ)
        → k < w.next_group
        → k ≢ g
        → (w.group k).at ≢ (w.group g).at
        → members (use_all spare g ms w) k ≡ members w k
    unfolding use_all
    members-use_all_other k h ne apart =
        ground
          (arith, array-append spare (w.group g) ms w.heap (w.group k).at apart, wf.allocated k h)

    pub use_all-IsAlone : IsAlone w g → IsAlone (use_all spare g ms w) g
    unfolding use_all
    use_all-IsAlone alone k h ne = ground (
      arith,
      append_inside spare (w.group g) ms w.heap (wf.allocated g old) (wf.inside g old),
      alone k h ne,
      wf.allocated k h,
    )

  module _ (g : ℕ) (w : World H) (wf : IsWellFormed w) (old : g < w.next_group) where
    pub clone-IsWellFormed : IsWellFormed (clone g w).1
    unfolding clone allocate
    clone-IsWellFormed = record {
      allocated = λ k h. ground (arith, wf.allocated k);
      inside = λ k h. ground (arith, wf.inside k, wf.allocated k, append-nil (members w g));
    }

    pub members-clone : members (clone g w).1 (clone g w).0 ≡ members w g
    unfolding clone allocate
    members-clone =
        let shown = members w g in
        ap (elements (clone g w).1.heap) (
          set_group_self w.group w.next_group
            (record { at = w.heap.next; length_of = length shown }))
        ∙ ap (take (length shown)) (update_self w.heap.array w.heap.next (shown ++ []))
        ∙ take_front (length shown) shown [] refl

    pub members-clone_other : (k : ℕ) → k < w.next_group → members (clone g w).1 k ≡ members w k
    unfolding clone allocate
    members-clone_other k h = ground (arith, wf.allocated k h)

    pub clone-IsAlone : IsAlone (clone g w).1 (clone g w).0
    unfolding clone allocate
    clone-IsAlone k h ne = ground (arith, wf.allocated k)

  clone_fresh :
      (g : ℕ) (w : World H)
      → ((clone g w).0 < (clone g w).1.next_group)
        × ((k : ℕ) → k < w.next_group → (k < (clone g w).1.next_group) × (k ≢ (clone g w).0))
  unfolding clone
  clone_fresh g w = (omega arith, λ k h. omega arith)

  -- In a well-formed world, `Extend` gives a new group that holds the old group's middlewares and
  -- then the added ones. Every group that was there, the old one included, holds what it held, no
  -- other group shares its array with the new one, and the world stays well-formed.
  pub extend_isolated :
      (spare : List (H → H)) (g : ℕ) (ms : List (H → H)) (w : World H)
      → IsWellFormed w
      → g < w.next_group
      → (k : ℕ) → k < w.next_group
      → let (new, w') = extend spare g ms w in
        (members w' new ≡ members w g ++ ms)
        × (members w' k ≡ members w k)
        × IsWellFormed w'
        × IsAlone w' new
  unfolding extend
  extend_isolated spare g ms w wf old k h =
      let (c, w1) = clone g w in
      let wf1 = clone-IsWellFormed g w wf old in
      let fresh = clone_fresh g w in
      let alone = clone-IsAlone g w wf old in
      (
        rw (← members-clone g w wf old) (members-use_all spare c ms w1 wf1 fresh.0),
        members-use_all_other spare c ms w1 wf1 fresh.0 k (fresh.1 k h).0 (fresh.1 k h).1
              (alone k (fresh.1 k h).0 (fresh.1 k h).1)
            ∙ members-clone_other g w wf old k h,
        use_all-IsWellFormed spare c ms w1 wf1 fresh.0,
        use_all-IsAlone spare c ms w1 wf1 fresh.0 alone,
      )

  -- In a well-formed world, `Use` on a group whose array no other group uses adds the middlewares
  -- to that group and changes no other; the group still shares its array with none, and the world
  -- stays well-formed.
  use_all_isolated :
      (spare : List (H → H)) (g : ℕ) (ms : List (H → H)) (w : World H)
      → IsWellFormed w
      → IsAlone w g
      → g < w.next_group
      → (members (use_all spare g ms w) g ≡ members w g ++ ms)
        × ((k : ℕ) → k < w.next_group → k ≢ g → members (use_all spare g ms w) k ≡ members w k)
        × IsWellFormed (use_all spare g ms w)
        × IsAlone (use_all spare g ms w) g
  use_all_isolated spare g ms w wf alone old = (
    members-use_all spare g ms w wf old,
    λ k h ne. members-use_all_other spare g ms w wf old k h ne (alone k h ne),
    use_all-IsWellFormed spare g ms w wf old,
    use_all-IsAlone spare g ms w wf old alone,
  )
