-- ===== src/Auth/Validator/Laws/Demands.antt =====
-- What the validator has package jwt demand of a token.
use txova_go_middleware.Base.{
  ◌≡◌, ◌≢◌, ◌↔◌, ◌⊎◌, inl, inr, refl, sym, ap, ◌∙◌, none, some, List, [], ◌∷◌, ◌++◌, arith, map,
  Holds, Text, Text_eq, text_eq, text_eq_iff, ne_of_text_eq, Bool-cases, codes,
}
use txova_go_middleware.Auth.Validator.{Validator, ParserOptions, parser_options}

-- A family of methods before a size.
abbrev IsJoined : (families sizes : List Text) → Text → Type 0
IsJoined families sizes name =
    (family : Text) × (size : Text) × Holds families family
    × Holds sizes size
    × (name ≡ family ++ size)

-- A method for signatures: RSA, ECDSA or HMAC, with one of three sizes.
abbrev pub IsMethod : Text → Type 0
IsMethod name =
    IsJoined (codes "RS" ∷ codes "ES" ∷ codes "HS" ∷ [])
      (codes "256" ∷ codes "384" ∷ codes "512" ∷ []) name

-- One of the methods, and the validator's issuer, if it has one.
pub record Demands (v : Validator) (o : ParserOptions) : Type 0 where
  pub method : (name : Text) → Holds o.valid_methods name ↔ IsMethod name
  pub issuer :
      ((v.issuer ≡ []) × (o.issuer ≡ none)) ⊎ ((v.issuer ≢ []) × (o.issuer ≡ some v.issuer))

Holds-append : (xs ys : List Text) (a : Text) → Holds (xs ++ ys) a ↔ (Holds xs a ⊎ Holds ys a)
Holds-append [] ys a = ground arith
Holds-append (x ∷ xs) ys a = ground (arith, Holds-append xs ys a)

-- The sizes with a family before each.
Holds-sized :
    (family : Text) (sizes : List Text) (name : Text)
    → Holds (map (λ size. family ++ size) sizes) name
      ↔ ((size : Text) × Holds sizes size × (name ≡ family ++ size))
Holds-sized family [] name = (λ h. absurd h, λ (size, z, e). absurd z)
Holds-sized family (x ∷ sizes) name =
    let (to, from) = Holds-sized family sizes name in
    (
      λ h. elim h [
        | inl e ↦ (x, inl refl, sym e)
        | inr rest ↦ let (size, z, e) = to rest in (size, inr z, e)
      ],
      λ (size, z, e). elim z [
        | inl same ↦ inl (ap (λ t. family ++ t) same ∙ sym e)
        | inr rest ↦ inr (from (size, rest, e))
      ],
    )

-- Every family before every size.
abbrev joined : (families sizes : List Text) → List Text
joined [] sizes = []
joined (family ∷ families) sizes = map (λ size. family ++ size) sizes ++ joined families sizes

Holds-joined :
    (families sizes : List Text) (name : Text)
    → Holds (joined families sizes) name ↔ IsJoined families sizes name
Holds-joined [] sizes name = (λ h. absurd h, λ (family, size, f, z, e). absurd f)
Holds-joined (x ∷ families) sizes name =
    let (first, back) = Holds-sized x sizes name in
    let (others, return) = Holds-joined families sizes name in
    let row = map (λ size. x ++ size) sizes in
    (
      λ h. elim ((Holds-append row (joined families sizes) name).0 h) [
        | inl a ↦ let (size, z, e) = first a in (x, size, inl refl, z, e)
        | inr b ↦ let (family, size, f, z, e) = others b in (family, size, inr f, z, e)
      ],
      λ (family, size, f, z, e). elim f [
        | inl same ↦
            (Holds-append row (joined families sizes) name).1
              (inl (back (size, z, e ∙ ap (λ t. t ++ size) (sym same))))
        | inr rest ↦
            (Holds-append row (joined families sizes) name).1
              (inr (return (family, size, rest, z, e)))
      ],
    )

pub parser_options-Demands : (v : Validator) → Demands v (parser_options v)
unfolding parser_options
parser_options-Demands v = record {
  method = λ name.
      Holds-joined (codes "RS" ∷ codes "ES" ∷ codes "HS" ∷ [])
        (codes "256" ∷ codes "384" ∷ codes "512" ∷ []) name;
  issuer = elim (Bool-cases (text_eq v.issuer [])) [
    | inl e ↦ inl ((text_eq_iff v.issuer []).0 e, rw e refl)
    | inr n ↦ inr (ne_of_text_eq v.issuer [] n, rw n refl)
  ];
}
