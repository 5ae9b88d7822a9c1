-- ===== src/Base/Lists.antt =====
-- Lists measured by native numbers, predicates on lists, and membership with a Boolean test.
use Prim.Native.Nat.{ℕ, zero, suc, ◌+◌}
use mathlib.Core.Path.{◌≡◌, refl}
use mathlib.Core.Logic.{◌↔◌, ◌⊎◌, inl, inr}
use mathlib.Core.Bool.{Bool, true, false, ◌||◌}
use mathlib.Core.List.{List, [], ◌∷◌, ◌++◌}
use mathlib.Core.Option.{Option, none, some}
use native.Mathlib.Omega.{arith}
use txova_go_middleware.Base.Tests.{Comparable, ◌==◌, Bool-cases}

module _ {ℓ} {A : Type ℓ} where
  abbrev pub length : List A → ℕ
  length [] = 0
  length (x ∷ xs) = suc (length xs)

  abbrev pub take : ℕ → List A → List A
  take zero xs = []
  take (suc n) [] = []
  take (suc n) (x ∷ xs) = x ∷ take n xs

  abbrev pub drop : ℕ → List A → List A
  drop zero xs = xs
  drop (suc n) [] = []
  drop (suc n) (x ∷ xs) = drop n xs

  abbrev pub get_elem? : List A → ℕ → Option A
  get_elem? [] i = none
  get_elem? (x ∷ xs) zero = some x
  get_elem? (x ∷ xs) (suc i) = get_elem? xs i

  pub length-append : (xs ys : List A) → length (xs ++ ys) ≡ length xs + length ys
  length-append [] ys = omega arith
  length-append (x ∷ xs) ys = omega (arith, length-append xs ys)

  pub take-append : (xs ys : List A) → take (length xs) (xs ++ ys) ≡ xs
  take-append [] ys = refl
  take-append (x ∷ xs) ys = rw (take-append xs ys)

  pub drop-append : (xs ys : List A) → drop (length xs) (xs ++ ys) ≡ ys
  drop-append [] ys = refl
  drop-append (x ∷ xs) ys = drop-append xs ys

module _ {ℓ} {A : Type ℓ} where
  -- Some element satisfies the predicate.
  abbrev pub Any : (A → Type 0) → List A → Type 0
  Any P [] = ⊥
  Any P (x ∷ xs) = P x ⊎ Any P xs

  -- Every element does.
  abbrev pub All : (A → Type 0) → List A → Type 0
  All P [] = Unit
  All P (x ∷ xs) = P x × All P xs

  pub All-append : (P : A → Type 0) (xs ys : List A) → All P xs → All P ys → All P (xs ++ ys)
  All-append P [] ys h k = k
  All-append P (x ∷ xs) ys h k = (h.0, All-append P xs ys h.1 k)

module _ {A : Type 0} ⦃e : Comparable A⦄ where
  -- The value is an element of the list.
  abbrev pub Holds : List A → A → Type 0
  Holds xs a = Any (λ x. x ≡ a) xs

  -- `for … { if x == a { return true } }; return false`
  unfoldable pub contains : List A → A → Bool
  contains [] a = false
  contains (x ∷ xs) a = x == a || contains xs a

  pub contains_sound : (xs : List A) (a : A) → contains xs a ≡ true → Holds xs a
  unfolding contains
  contains_sound [] a h = cc
  contains_sound (x ∷ xs) a h = elim (Bool-cases (x == a)) [
    | inl same ↦ inl ((e.equals_iff x a).0 same)
    | inr other ↦ inr (contains_sound xs a (rw other at h))
  ]

  pub contains_complete : (xs : List A) (a : A) → Holds xs a → contains xs a ≡ true
  unfolding contains
  contains_complete [] a h = absurd h
  contains_complete (x ∷ xs) a (inl same) = rw ((e.equals_iff x a).1 same)
  contains_complete (x ∷ xs) a (inr later) = ground (arith, contains_complete xs a later)

  pub contains_iff : (xs : List A) (a : A) → (contains xs a ≡ true) ↔ Holds xs a
  contains_iff xs a = (contains_sound xs a, contains_complete xs a)
