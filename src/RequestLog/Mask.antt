-- ===== src/RequestLog/Mask.antt =====
-- mwlog/mwlog.go: `maskQueryParams`, with `strings.Split` and `strings.Join` at one byte. `to_lower`
-- is `strings.ToLower`, any function here, since it follows the tables of Unicode.
pub mod Laws
use txova_go_middleware.Base.{
  ℕ, ◌+◌, Bool, true, false, ◌&&◌, Option, none, some, List, [], ◌∷◌, ◌++◌, map, ltb, ◌==◌, ℕ_eq,
  if◌then◌else◌, take, Text, Text_eq, codes, contains, index,
}

abbrev prepend : ℕ → List Text → List Text
prepend b [] = (b ∷ []) ∷ []
prepend b (part ∷ parts) = (b ∷ part) ∷ parts

-- `strings.Split(s, sep)`
unfoldable pub split_all : Text → ℕ → List Text
split_all [] sep = [] ∷ []
split_all (b ∷ s) sep = let rest = split_all s sep in if b == sep then [] ∷ rest else prepend b rest

-- `strings.Join(parts, sep)`
unfoldable pub join : List Text → ℕ → Text
join [] sep = []
join (part ∷ []) sep = part
join (part ∷ next ∷ parts) sep = part ++ sep ∷ join (next ∷ parts) sep

abbrev pub redacted : Text
redacted = codes "[REDACTED]"

module _ (to_lower : Text → Text) (mask_set : List Text) where
  -- The loop's body, on one part: its new value.
  unfoldable pub mask_part : Text → Text
  mask_part part = elim (index part b'=') [
    | none ↦ part
    | some idx ↦
        if ltb 0 idx && contains mask_set (to_lower (take idx part))
        then take (idx + 1) part ++ redacted
        else part
  ]

  unfoldable pub mask_query_params : Text → Text
  unfolding split_all join mask_part
  mask_query_params raw_query =
      if raw_query == [] then [] else join (map mask_part (split_all raw_query b'&')) b'&'
