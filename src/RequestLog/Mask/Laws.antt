-- ===== src/RequestLog/Mask/Laws.antt =====
-- Masked values do not show.
use txova_go_middleware.Base.{
  ℕ, suc, ◌+◌, ◌≡◌, ◌≢◌, refl, sym, ap, ◌∙◌, List, [], ◌∷◌, ◌++◌, map, ℕ_eq, arith, All, All-append,
  Holds, length, take, take-append, Text, Text_eq, text_eq, contains_iff, index, index-append,
  Lacks, append_assoc,
}
use txova_go_middleware.RequestLog.Mask.{split_all, join, redacted, mask_part, mask_query_params}

split_all_of_Lacks : (p : Text) (c : ℕ) → Lacks c p → split_all p c ≡ p ∷ []
unfolding split_all
split_all_of_Lacks [] c h = refl
split_all_of_Lacks (b ∷ p) c h = ground (arith, split_all_of_Lacks p c h.1)

split_all-append : (p t : Text) (c : ℕ) → Lacks c p → split_all (p ++ c ∷ t) c ≡ p ∷ split_all t c
unfolding split_all
split_all-append [] t c h = ground arith
split_all-append (b ∷ p) t c h = ground (arith, split_all-append p t c h.1)

take_past : (s t : Text) (c : ℕ) → take (length s + 1) (s ++ c ∷ t) ≡ s ++ c ∷ []
take_past [] t c = refl
take_past (b ∷ s) t c =
    let count : suc (length s) + 1 ≡ suc (length s + 1) = omega arith in
    rw count (ap (λ x. b ∷ x) (take_past s t c))

split_all-join :
    (p : Text) (ps : List Text) (c : ℕ)
    → All (Lacks c) (p ∷ ps)
    → split_all (join (p ∷ ps) c) c ≡ p ∷ ps
unfolding join
split_all-join p [] c h = split_all_of_Lacks p c h.0
split_all-join p (q ∷ ps) c h =
    split_all-append p (join (q ∷ ps) c) c h.0 ∙ ap (λ x. p ∷ x) (split_all-join q ps c h.1)

some_parts :
    (parts : List Text)
    → parts ≢ []
    → All (Lacks b'&') parts
    → split_all (join parts b'&') b'&' ≡ parts
some_parts [] given h = absurd (given refl)
some_parts (p ∷ ps) given h = split_all-join p ps b'&' h

append-ne-nil : (before after : List Text) (p : Text) → before ++ p ∷ after ≢ []
append-ne-nil [] after p e = cc
append-ne-nil (q ∷ before) after p e = cc

map-append_part :
    (f : Text → Text) (before after : List Text) {p q : Text}
    → f p ≡ f q
    → map f (before ++ p ∷ after) ≡ map f (before ++ q ∷ after)
map-append_part f [] after same = ap (λ x. x ∷ map f after) same
map-append_part f (r ∷ before) after same = ap (λ x. f r ∷ x) (map-append_part f before after same)

-- A parameter, as it stands in a query.
abbrev pub pair_text : Text × Text → Text
pair_text p = p.0 ++ b'=' ∷ p.1

module _ (to_lower : Text → Text) (mask_set : List Text) where
  mask_part_masked :
      (key value : Text)
      → key ≢ []
      → Lacks b'=' key
      → Holds mask_set (to_lower key)
      → mask_part to_lower mask_set (key ++ b'=' ∷ value) ≡ key ++ b'=' ∷ redacted
  unfolding mask_part
  mask_part_masked [] value given h masked = absurd (given refl)
  mask_part_masked (b ∷ rest) value given h masked =
      let key = b ∷ rest in
      let shown : take (length key + 1) (key ++ b'=' ∷ value) ++ redacted ≡ key ++ b'=' ∷ redacted =
        ap (λ x. x ++ redacted) (take_past key value b'=')
        ∙ append_assoc key (b'=' ∷ []) redacted in
      ground (
        arith,
        index-append key value b'=' h,
        take-append key (b'=' ∷ value),
        contains_iff mask_set (to_lower key),
        shown,
      )

  mask_part_kept :
      (key value : Text)
      → Lacks b'=' key
      → ¬ Holds mask_set (to_lower key)
      → mask_part to_lower mask_set (key ++ b'=' ∷ value) ≡ key ++ b'=' ∷ value
  unfolding mask_part
  mask_part_kept key value h plain = ground (
    arith,
    index-append key value b'=' h,
    take-append key (b'=' ∷ value),
    contains_iff mask_set (to_lower key),
  )

  mask_whole :
      (q : Text)
      → mask_query_params to_lower mask_set q
        ≡ join (map (mask_part to_lower mask_set) (split_all q b'&')) b'&'
  unfolding mask_query_params mask_part text_eq index split_all join
  mask_whole [] = refl
  mask_whole (b ∷ q) = refl

  mask_parts :
      (parts : List Text)
      → parts ≢ []
      → All (Lacks b'&') parts
      → mask_query_params to_lower mask_set (join parts b'&')
        ≡ join (map (mask_part to_lower mask_set) parts) b'&'
  mask_parts parts given h =
      mask_whole (join parts b'&')
      ∙ ap (λ x. join (map (mask_part to_lower mask_set) x) b'&') (some_parts parts given h)

  -- Two queries that differ only in the value of one parameter, whose name is not empty, holds no
  -- `=` and is masked in lower case, are logged as the same text. (Names, values and the other
  -- parts hold no `&`.)
  pub mask_hides_value :
      (before after : List Text) (key value other : Text)
      → All (Lacks b'&') before
      → All (Lacks b'&') after
      → Lacks b'&' key
      → Lacks b'&' value
      → Lacks b'&' other
      → key ≢ []
      → Lacks b'=' key
      → Holds mask_set (to_lower key)
      → mask_query_params to_lower mask_set (join (before ++ (key ++ b'=' ∷ value) ∷ after) b'&')
        ≡ mask_query_params to_lower mask_set (join (before ++ (key ++ b'=' ∷ other) ∷ after) b'&')
  mask_hides_value before after key value other hb ha hk hv ho given named masked =
      let lacks = λ (v : Text) (h : Lacks b'&' v).
        let law : All (Lacks b'&') (before ++ (key ++ b'=' ∷ v) ∷ after) =
          All-append (Lacks b'&') before ((key ++ b'=' ∷ v) ∷ after) hb
            (All-append (λ c. c ≢ b'&') key (b'=' ∷ v) hk (ground arith, h), ha) in
        law in
      mask_parts (before ++ (key ++ b'=' ∷ value) ∷ after) (append-ne-nil before after _)
        (lacks value hv)
      ∙ ap (λ x. join x b'&')
          (map-append_part (mask_part to_lower mask_set) before after (
            mask_part_masked key value given named masked
            ∙ sym (mask_part_masked key other given named masked)))
      ∙ sym (
          mask_parts (before ++ (key ++ b'=' ∷ other) ∷ after) (append-ne-nil before after _)
            (lacks other ho))

  -- A parameter's name and value that are shown as they are.
  abbrev pub IsShown : Text × Text → Type 0
  IsShown p = Lacks b'=' p.0 × Lacks b'&' p.0 × Lacks b'&' p.1 × (¬ Holds mask_set (to_lower p.0))

  kept_parts :
      (ps : List (Text × Text))
      → All IsShown ps
      → map (mask_part to_lower mask_set) (map pair_text ps) ≡ map pair_text ps
  kept_parts [] h = refl
  kept_parts (p ∷ ps) h = rw (mask_part_kept p.0 p.1 h.0.0 h.0.3, kept_parts ps h.1) refl

  Lacks-parts : (ps : List (Text × Text)) → All IsShown ps → All (Lacks b'&') (map pair_text ps)
  Lacks-parts [] h = tt
  Lacks-parts (p ∷ ps) h =
      (All-append (λ c. c ≢ b'&') p.0 (b'=' ∷ p.1) h.0.1 (ground arith, h.0.2), Lacks-parts ps h.1)

  -- A query that has parameters, of which none has a name that is masked in lower case, is logged
  -- as it is. (Names hold no `=`, and neither names nor values hold `&`.)
  mask_keeps_query :
      (p : Text × Text) (ps : List (Text × Text))
      → All IsShown (p ∷ ps)
      → mask_query_params to_lower mask_set (join (map pair_text (p ∷ ps)) b'&')
        ≡ join (map pair_text (p ∷ ps)) b'&'
  mask_keeps_query p ps h =
      mask_parts (map pair_text (p ∷ ps)) (append-ne-nil [] (map pair_text ps) (pair_text p))
        (Lacks-parts (p ∷ ps) h)
      ∙ ap (λ x. join x b'&') (kept_parts (p ∷ ps) h)
