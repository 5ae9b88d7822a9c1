-- ===== src/Chain/Slice/Laws.antt =====
-- What `append` shows, and what it leaves alone.
use txova_go_middleware.Base.{
  ℕ, zero, suc, ◌+◌, ◌≡◌, ◌≢◌, ◌≤◌, ◌<◌, ◌⊎◌, refl, List, [], ◌∷◌, ◌++◌, arith, length, take, drop,
  length-append, take-append, ap, Bool-cases, inl, inr, leb,
}
use txova_go_middleware.Chain.Slice.{Heap, Slice, elements, update, allocate, append}

module _ {A : Type 0} where
  pub length-take_of_le : (n : ℕ) (xs : List A) → n ≤ length xs → length (take n xs) ≡ n
  length-take_of_le zero xs h = refl
  length-take_of_le (suc n) [] h = absurd (omega arith)
  length-take_of_le (suc n) (x ∷ xs) h = ap suc (length-take_of_le n xs (omega arith))

  length-drop_of_le : (n : ℕ) (xs : List A) → n ≤ length xs → n + length (drop n xs) ≡ length xs
  length-drop_of_le zero xs h = omega arith
  length-drop_of_le (suc n) [] h = absurd (omega arith)
  length-drop_of_le (suc n) (x ∷ xs) h = omega (arith, length-drop_of_le n xs (omega arith))

  pub take_front : (n : ℕ) (ps ys : List A) → length ps ≡ n → take n (ps ++ ys) ≡ ps
  take_front n ps ys e = rw (← e) (take-append ps ys)

  pub update_self : (f : ℕ → List A) (p : ℕ) (v : List A) → update f p v p ≡ v
  update_self f p v = ground arith

  module _ (spare : List A) (s : Slice) (xs : List A) (h : Heap A) where
    -- The slice that `append` returns shows the old elements and then the new ones.
    pub elements-append :
        s.length_of ≤ length (h.array s.at)
        → elements (append spare s xs h).1 (append spare s xs h).0 ≡ elements h s ++ xs
    unfolding append allocate
    elements-append fits =
        let shown : List A = elements h s ++ xs in
        let total : length shown ≡ s.length_of + length xs = omega (
          arith,
          length-append (elements h s) xs,
          length-take_of_le s.length_of (h.array s.at) fits,
        ) in
        elim (Bool-cases (leb (s.length_of + length xs) (length (h.array s.at)))) [
          | inl enough ↦
              rw enough (rw update_self (take_front (s.length_of + length xs) shown _ total))
          | inr full ↦ rw full (rw update_self (take_front (length shown) shown spare refl))
        ]

    -- It writes to no array but the slice's own, and a new one.
    pub array-append : (a : ℕ) → a ≢ s.at → a < h.next → (append spare s xs h).1.array a ≡ h.array a
    unfolding append allocate
    array-append a other old = ground arith

    -- Its slice starts at the old array or at a new one, and lies inside it.
    pub append_inside :
        s.at < h.next
        → s.length_of ≤ length (h.array s.at)
        → let (s', h') = append spare s xs h in
          ((s'.at ≡ s.at) ⊎ (s'.at ≡ h.next))
          × (s'.at < h'.next)
          × (h.next ≤ h'.next)
          × (s'.length_of ≤ length (h'.array s'.at))
    unfolding append allocate
    append_inside old fits = ground (
      arith,
      length-append (elements h s) xs,
      length-append (elements h s ++ xs) spare,
      length-append (elements h s ++ xs) (drop (s.length_of + length xs) (h.array s.at)),
      length-take_of_le s.length_of (h.array s.at),
    )

    -- No array gets shorter.
    pub length-array_mono :
        (a : ℕ)
        → s.length_of ≤ length (h.array s.at)
        → a < h.next
        → length (h.array a) ≤ length ((append spare s xs h).1.array a)
    unfolding append allocate
    length-array_mono a fits old = ground (
      arith,
      length-append (elements h s) xs,
      length-append (elements h s ++ xs) (drop (s.length_of + length xs) (h.array s.at)),
      length-take_of_le s.length_of (h.array s.at),
      length-drop_of_le (s.length_of + length xs) (h.array s.at),
    )
