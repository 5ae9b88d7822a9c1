-- ===== src/Base/Strings.antt =====
-- Go strings as lists of bytes, and the operations of package `strings` that the program calls.
-- A literal is its code points, which are its bytes: every literal of the program is ASCII.
use Prim.Native.Nat.{ℕ, suc, ◌+◌, ◌-◌}
use Prim.Native.Char.{code}
use Prim.Native.String.{String}
use mathlib.Core.Path.{◌≡◌, refl, ap}
use mathlib.Core.Logic.{◌↔◌, ◌≢◌, ◌⊎◌, inl, inr}
use mathlib.Core.Bool.{Bool, true, false, ◌&&◌}
use mathlib.Core.List.{List, [], ◌∷◌, ◌++◌, map}
use mathlib.Core.Option
use mathlib.Core.Option.{Option, none, some}
use native.Mathlib.Omega.{arith}
use txova_go_middleware.Base.Tests.{Comparable, ◌==◌, ℕ_eq, leb, if◌then◌else◌, Bool-cases}
use txova_go_middleware.Base.Lists.{length, take, drop, All, take-append}

abbrev pub Text : Type 0
Text = List ℕ

abbrev pub codes : String → Text
codes String.[] = []
codes (String.◌∷◌ c s) = code c ∷ codes s

unfoldable pub text_eq : Text → Text → Bool
text_eq [] [] = true
text_eq (a ∷ s) (b ∷ t) = (a == b) && text_eq s t
text_eq _ _ = false

text_eq_sound : (s t : Text) → text_eq s t ≡ true → s ≡ t
unfolding text_eq
text_eq_sound [] [] h = refl
text_eq_sound (a ∷ s) (b ∷ t) h = ground (arith, text_eq_sound s t)
text_eq_sound [] (b ∷ t) h = cc
text_eq_sound (a ∷ s) [] h = cc

pub text_eq_refl : (s : Text) → text_eq s s ≡ true
unfolding text_eq
text_eq_refl [] = refl
text_eq_refl (a ∷ s) = ground (arith, text_eq_refl s)

pub text_eq_iff : (s t : Text) → (text_eq s t ≡ true) ↔ (s ≡ t)
text_eq_iff s t = (text_eq_sound s t, λ e. rw e (text_eq_refl t))

-- Two closed texts differ: by evaluation.
pub ne_of_text_eq : (s t : Text) → text_eq s t ≡ false → s ≢ t
ne_of_text_eq s t h e = ground (arith, text_eq_iff s t)

pub text_ne : (s t : Text) → s ≢ t → text_eq s t ≡ false
text_ne s t h = ground (arith, text_eq_iff s t)

instance abbrev pub Text_eq : Comparable Text
Text_eq = record { equals_iff = text_eq_iff; equals = text_eq }

-- `strings.Index(s, sep)` for a one-byte separator; `none` for -1.
unfoldable pub index : Text → ℕ → Option ℕ
index [] c = none
index (b ∷ s) c = if b == c then some 0 else Option.map suc (index s c)

-- `strings.LastIndex`.
unfoldable pub last_index : Text → ℕ → Option ℕ
last_index [] c = none
last_index (b ∷ s) c = elim (last_index s c) [
  | some i ↦ some (suc i)
  | none ↦ if b == c then some 0 else none
]

-- `strings.SplitN(s, sep, 2)` for a one-byte separator.
unfoldable pub split_two : Text → ℕ → List Text
split_two s sep = elim (index s sep) [ none ↦ s ∷ [] | some i ↦ take i s ∷ drop (suc i) s ∷ [] ]

abbrev pub lower : ℕ → ℕ
lower c = if leb b'A' c && leb c b'Z' then c + 32 else c

abbrev pub upper : ℕ → ℕ
upper c = if leb b'a' c && leb c b'z' then c - 32 else c

-- `strings.EqualFold(s, t)` where one side is ASCII without `k` and `s`, the only letters that a
-- character outside ASCII folds to.
unfoldable pub equal_fold : Text → Text → Bool
unfolding text_eq
equal_fold s t = text_eq (map lower s) (map lower t)

-- The byte does not occur in the text.
abbrev pub Lacks : ℕ → Text → Type 0
Lacks c = All (λ b. b ≢ c)

pub index-append : (s t : Text) (c : ℕ) → Lacks c s → index (s ++ c ∷ t) c ≡ some (length s)
unfolding index
index-append [] t c h = ground arith
index-append (b ∷ s) t c h = ground (arith, index-append s t c h.1)

pub index-eq-none : (s : Text) (c : ℕ) → Lacks c s → index s c ≡ none
unfolding index
index-eq-none [] c h = refl
index-eq-none (b ∷ s) c h = ground (arith, index-eq-none s c h.1)

pub last_index-eq-none : (s : Text) (c : ℕ) → Lacks c s → last_index s c ≡ none
unfolding last_index
last_index-eq-none [] c h = refl
last_index-eq-none (b ∷ s) c h = ground (arith, last_index-eq-none s c h.1)

pub last_index-append :
    (s t : Text) (c : ℕ) → Lacks c t → last_index (s ++ c ∷ t) c ≡ some (length s)
unfolding last_index
last_index-append [] t c h = ground (arith, last_index-eq-none t c h)
last_index-append (b ∷ s) t c h = rw (last_index-append s t c h)

-- A text has a first occurrence of a byte, or none.
pub first_occurrence :
    (s : Text) (c : ℕ) → Lacks c s ⊎ ((a : Text) × (b : Text) × (s ≡ a ++ c ∷ b) × Lacks c a)
first_occurrence [] c = inl tt
first_occurrence (x ∷ s) c = elim (Bool-cases (x == c)) [
  | inl same ↦ inr ([], s, ground arith, tt)
  | inr other ↦ elim (first_occurrence s c) [
    | inl lacks ↦ inl (ground arith, lacks)
    | inr (a, b, e, lacks) ↦ inr (x ∷ a, b, ap (λ t. x ∷ t) e, (ground arith, lacks))
  ]
]

pub split_two_of_Lacks : (s : Text) (c : ℕ) → Lacks c s → split_two s c ≡ s ∷ []
unfolding split_two
split_two_of_Lacks s c h = ground (arith, index-eq-none s c h)

drop_past : (s t : Text) (c : ℕ) → drop (suc (length s)) (s ++ c ∷ t) ≡ t
drop_past [] t c = refl
drop_past (x ∷ s) t c = drop_past s t c

pub split_two-append : (s t : Text) (c : ℕ) → Lacks c s → split_two (s ++ c ∷ t) c ≡ s ∷ t ∷ []
unfolding split_two
split_two-append s t c h =
    ground (arith, index-append s t c h, take-append s (c ∷ t), drop_past s t c)
