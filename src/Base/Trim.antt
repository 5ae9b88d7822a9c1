-- ===== src/Base/Trim.antt =====
-- `strings.TrimSpace` on bytes: the white space of Unicode, as UTF-8 encodes it.
use mathlib.Core.Path.{◌≡◌, refl}
use mathlib.Core.Bool.{Bool, true, false, ◌&&◌, ◌||◌}
use mathlib.Core.List.{[], ◌∷◌, reverse, reverse-reverse}
use Prim.Native.Nat.{ℕ, ◌<◌}
use native.Mathlib.Omega.{arith}
use txova_go_middleware.Base.Tests.{◌==◌, ℕ_eq, leb, if◌then◌else◌}
use txova_go_middleware.Base.Strings.{Text, codes}

-- Tab to carriage return, and the blank.
is_space : ℕ → Bool
is_space a = (leb 9 a && leb a 13) || a == 32

-- U+0085 and U+00A0.
is_space_pair : ℕ → ℕ → Bool
is_space_pair a b = a == 0xc2 && (b == 0x85 || b == 0xa0)

-- U+1680, U+2000 to U+200A, U+2028, U+2029, U+202F, U+205F and U+3000.
is_space_triple : ℕ → ℕ → ℕ → Bool
is_space_triple a b c =
    (a == 0xe1 && b == 0x9a && c == 0x80)
    || (a == 0xe2
        && b == 0x80
        && ((leb 0x80 c && leb c 0x8a) || c == 0xa8 || c == 0xa9 || c == 0xaf))
    || (a == 0xe2 && b == 0x81 && c == 0x9f)
    || (a == 0xe3 && b == 0x80 && c == 0x80)

-- Drops white space at the front; `pair` and `triple` test two and three bytes in order.
module _ (pair : ℕ → ℕ → Bool) (triple : ℕ → ℕ → ℕ → Bool) where
  trim_front : Text → Text
  trim_front [] = []
  trim_front (a ∷ []) = if is_space a then [] else a ∷ []
  trim_front (a ∷ b ∷ []) = elim (is_space a) [
    | true ↦ trim_front (b ∷ [])
    | false ↦ if pair a b then [] else a ∷ b ∷ []
  ]
  trim_front (a ∷ b ∷ c ∷ s) = elim (is_space a) [
    | true ↦ trim_front (b ∷ c ∷ s)
    | false ↦ elim (pair a b) [
      | true ↦ trim_front (c ∷ s)
      | false ↦ elim (triple a b c) [ true ↦ trim_front s | false ↦ a ∷ b ∷ c ∷ s ]
    ]
  ]

trim_left : Text → Text
unfolding trim_front is_space is_space_pair is_space_triple
trim_left = trim_front is_space_pair is_space_triple

trim_right : Text → Text
unfolding trim_front is_space is_space_pair is_space_triple
trim_right s =
    reverse (trim_front (λ b a. is_space_pair a b) (λ c b a. is_space_triple a b c) (reverse s))

unfoldable pub trim_space : Text → Text
unfolding trim_left trim_right
trim_space s = trim_right (trim_left s)

-- An ASCII byte that is no white space.
abbrev pub IsGraphic : ℕ → Type 0
IsGraphic a = (32 < a) × (a < 127)

-- A text whose first byte is such a byte.
abbrev pub StartsGraphic : Text → Type 0
StartsGraphic [] = Unit
StartsGraphic (a ∷ s) = IsGraphic a

module _ {pair : ℕ → ℕ → Bool} {triple : ℕ → ℕ → ℕ → Bool}
    (no_pair : (a b : ℕ) → IsGraphic a → pair a b ≡ false)
    (no_triple : (a b c : ℕ) → IsGraphic a → triple a b c ≡ false) where
  trim_front_of_StartsGraphic : (s : Text) → StartsGraphic s → trim_front pair triple s ≡ s
  unfolding trim_front is_space
  trim_front_of_StartsGraphic [] h = refl
  trim_front_of_StartsGraphic (a ∷ []) h = ground arith
  trim_front_of_StartsGraphic (a ∷ b ∷ []) h = ground (arith, no_pair a b)
  trim_front_of_StartsGraphic (a ∷ b ∷ c ∷ s) h = ground (arith, no_pair a b, no_triple a b c)

trim_left_of_StartsGraphic : (s : Text) → StartsGraphic s → trim_left s ≡ s
unfolding trim_left
trim_left_of_StartsGraphic =
    trim_front_of_StartsGraphic (λ a b h. ground arith) (λ a b c h. ground arith)

trim_right_of_StartsGraphic : (s : Text) → StartsGraphic (reverse s) → trim_right s ≡ s
unfolding trim_right
trim_right_of_StartsGraphic s h =
    rw
      (trim_front_of_StartsGraphic {pair = λ b a. is_space_pair a b}
        {triple = λ c b a. is_space_triple a b c} (λ a b q. ground arith) (λ a b c q. ground arith)
        (reverse s) h)
      (reverse-reverse s)

-- Trimming keeps a text that begins and ends with ASCII bytes other than white space.
pub trim_space_of_StartsGraphic :
    (s : Text) → StartsGraphic s → StartsGraphic (reverse s) → trim_space s ≡ s
unfolding trim_space
trim_space_of_StartsGraphic s h k =
    rw (trim_left_of_StartsGraphic s h) (trim_right_of_StartsGraphic s k)

trim_test : trim_space (codes " \t10.0.0.1 ") ≡ codes "10.0.0.1"
unfolding trim_space
trim_test = refl
