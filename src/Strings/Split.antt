-- ===== src/Strings/Split.antt =====
-- Laws of `split`, `join` and the trims: what the parts of a text are.
use mathlib.Core.List.{reverse, reverse-cons}
use iprl_poc.Common.{ℕ, List, [], ◌∷◌, ◌++◌, Bool, ◌≡◌, ◌≢◌, refl, ap, Text, All, All-append, arith}
use iprl_poc.Strings.{into_first, split, join, trim_left, trim}

-- No byte of the text is the separator.
abbrev pub Lacks : ℕ → Text → Type 0
Lacks sep = All (λ c. c ≢ sep)

into_first-Lacks :
    (sep c : ℕ) (ps : List Text) → c ≢ sep → All (Lacks sep) ps → All (Lacks sep) (into_first c ps)
unfolding into_first
into_first-Lacks sep c [] n h = ((n, tt), tt)
into_first-Lacks sep c (p ∷ ps) n h = ((n, h.0), h.1)

-- No part of a split holds the separator.
pub split-Lacks : (sep : ℕ) (s : Text) → All (Lacks sep) (split sep s)
unfolding split
split-Lacks sep [] = (tt, tt)
split-Lacks sep (c ∷ s) = ground (arith, split-Lacks sep s, into_first-Lacks sep c (split sep s))

-- A text without separators is one part.
pub split_whole : (sep : ℕ) (s : Text) → Lacks sep s → split sep s ≡ s ∷ []
unfolding split into_first
split_whole sep [] h = refl
split_whole sep (c ∷ s) h = ground (arith, split_whole sep s h.1)

pub split-append : (sep : ℕ) (p s : Text) → Lacks sep p → split sep (p ++ sep ∷ s) ≡ p ∷ split sep s
unfolding split into_first
split-append sep [] s h = ground arith
split-append sep (c ∷ p) s h = ground (arith, split-append sep p s h.1)

-- Splitting a join gives the parts back, if there is a part and none holds the separator.
pub split-join :
    (sep : ℕ) (p : Text) (ps : List Text)
    → All (Lacks sep) (p ∷ ps)
    → split sep (join sep (p ∷ ps)) ≡ p ∷ ps
unfolding join
split-join sep p [] h = split_whole sep p h.0
split-join sep p (q ∷ ps) h =
    rw (split-append sep p (join sep (q ∷ ps)) h.0) (ap (λ t. p ∷ t) (split-join sep q ps h.1))

not-Lacks : (sep : ℕ) (us ws : Text) → ¬ Lacks sep (us ++ sep ∷ ws)
not-Lacks sep [] ws h = h.0 refl
not-Lacks sep (u ∷ us) ws h = not-Lacks sep us ws h.1

-- The last separator of a text is determined.
pub last_cut :
    (sep : ℕ) (xs xs' ys ys' : Text)
    → Lacks sep ys
    → Lacks sep ys'
    → xs ++ sep ∷ ys ≡ xs' ++ sep ∷ ys'
    → (xs ≡ xs') × (ys ≡ ys')
last_cut sep [] [] ys ys' h h' e = ground arith
last_cut sep [] (c ∷ xs') ys ys' h h' e =
    let tails : ys ≡ xs' ++ sep ∷ ys' = ground arith in
    absurd (not-Lacks sep xs' ys' (rw tails at h))
last_cut sep (c ∷ xs) [] ys ys' h h' e =
    let tails : ys' ≡ xs ++ sep ∷ ys = ground arith in absurd (not-Lacks sep xs ys (rw tails at h'))
last_cut sep (c ∷ xs) (d ∷ xs') ys ys' h h' e = ground (arith, last_cut sep xs xs' ys ys' h h')

module _ (sep : ℕ) (cut : ℕ → Bool) where
  trim_left-Lacks : (s : Text) → Lacks sep s → Lacks sep (trim_left cut s)
  unfolding trim_left
  trim_left-Lacks [] h = tt
  trim_left-Lacks (c ∷ s) h = ground (arith, trim_left-Lacks s h.1)

  reverse-Lacks : (s : Text) → Lacks sep s → Lacks sep (reverse s)
  reverse-Lacks [] h = tt
  reverse-Lacks (c ∷ s) h =
      rw reverse-cons (All-append _ (reverse s) (c ∷ []) (reverse-Lacks s h.1) (h.0, tt))

  -- Trimming brings no separator in.
  pub trim-Lacks : (s : Text) → Lacks sep s → Lacks sep (trim cut s)
  unfolding trim
  trim-Lacks s h = reverse-Lacks _ (trim_left-Lacks _ (reverse-Lacks _ (trim_left-Lacks s h)))
