-- ===== src/Strings.antt =====
-- What the program uses of Go's package strings, on bytes. `trim_space` and `to_lower` are those of
-- ASCII text, the only text that the program's words and the prober's lines are made of.
pub mod Split
use iprl_poc.Common.{
  ℕ, ◌+◌, List, [], ◌∷◌, ◌++◌, Option, none, some, Bool, true, false, ◌&&◌, ◌||◌, Text, ite,
  text_eq, ltb, leb, ◌==◌, if◌then◌else◌, map,
}
use mathlib.Core.List.{reverse}

-- strings.Split(s, sep) for a separator of one byte: cut at every separator.
unfoldable pub into_first : ℕ → List Text → List Text
into_first c [] = (c ∷ []) ∷ []
into_first c (p ∷ ps) = (c ∷ p) ∷ ps

unfoldable pub split : ℕ → Text → List Text
unfolding into_first
split sep [] = [] ∷ []
split sep (c ∷ s) = let rest = split sep s in if c == sep then [] ∷ rest else into_first c rest

-- Parts with a separator between them.
unfoldable pub join : ℕ → List Text → Text
join sep [] = []
join sep (p ∷ []) = p
join sep (p ∷ q ∷ ps) = p ++ sep ∷ join sep (q ∷ ps)

-- strings.TrimPrefix; HasPrefix tells whether there was one.
unfoldable pub after_prefix : Text → Text → Option Text
after_prefix [] s = some s
after_prefix (c ∷ p) [] = none
after_prefix (c ∷ p) (d ∷ s) = let rest = after_prefix p s in if c == d then rest else none

unfoldable pub has_prefix : Text → Text → Bool
unfolding after_prefix
has_prefix s p = elim (after_prefix p s) [ some _ ↦ true | none ↦ false ]

unfoldable pub trim_prefix : Text → Text → Text
unfolding after_prefix
trim_prefix s p = elim (after_prefix p s) [ some rest ↦ rest | none ↦ s ]

-- The bytes of a set are taken off at the left end.
unfoldable pub trim_left : (ℕ → Bool) → Text → Text
trim_left cut [] = []
trim_left cut (c ∷ s) = let rest = trim_left cut s in if cut c then rest else c ∷ s

-- strings.Trim and strings.TrimSpace, for the set of bytes `cut`.
unfoldable pub trim : (ℕ → Bool) → Text → Text
unfolding trim_left
trim cut s = reverse (trim_left cut (reverse (trim_left cut s)))

abbrev pub is_space : ℕ → Bool
is_space c = c == 32 || (leb 9 c && leb c 13)

unfoldable pub trim_space : Text → Text
unfolding trim
trim_space = trim is_space

-- strings.ToLower
unfoldable pub to_lower : Text → Text
to_lower = map (λ c. if leb b'A' c && leb c b'Z' then c + 32 else c)
