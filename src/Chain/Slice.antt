-- ===== src/Chain/Slice.antt =====
-- Go slices of middleware on a heap of backing arrays: `append` writes into the array's spare
-- capacity where there is enough, and else moves to a new array.
pub mod Laws
use txova_go_middleware.Base.{
  ℕ, zero, suc, ◌+◌, ◌≡◌, ◌≢◌, ◌≤◌, ◌<◌, refl, Bool, true, false, Option, none, some, List, [], ◌∷◌,
  ◌++◌, arith, ◌==◌, ℕ_eq, leb, if◌then◌else◌, length, take, drop, get_elem?,
}

-- Arrays by their address; `next` is the first free address. An array has the length of its list.
pub record Heap (A : Type 0) : Type 0 where
  pub next : ℕ
  pub array : ℕ → List A

-- A slice that starts at its array's start, as all of the program's do.
pub record Slice : Type 0 where
  pub at : ℕ
  pub length_of : ℕ

module _ {A : Type 0} where
  abbrev pub update : (ℕ → List A) → ℕ → List A → ℕ → List A
  update f p v q = if p == q then v else f q

  -- The elements that the slice shows.
  abbrev pub elements : Heap A → Slice → List A
  elements h s = take s.length_of (h.array s.at)

  -- `spare` is the rest of a new array beyond its elements, which the runtime chooses.
  unfoldable pub allocate : List A → List A → Heap A → Slice × Heap A
  allocate xs spare h = (
    record { at = h.next; length_of = length xs },
    record { next = h.next + 1; array = update h.array h.next (xs ++ spare) },
  )

  -- `append(s, xs...)`
  unfoldable pub append : List A → Slice → List A → Heap A → Slice × Heap A
  unfolding allocate
  append spare s xs h =
      let whole = h.array s.at in
      let new_length = s.length_of + length xs in
      if leb new_length (length whole)
      then (
        record s { length_of = new_length },
        record h {
          array = update h.array s.at (take s.length_of whole ++ xs ++ drop new_length whole);
        },
      )
      else allocate (elements h s ++ xs) spare h
