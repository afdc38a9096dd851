-- ===== src/Agent/Caracal/Reading.antt =====
-- The lines that `readCaracalOutput` of internal/components/agent/caracal_prober.go takes for
-- responses.
use mathlib.Core.List.{reverse, reverse-cons, reverse-reverse}
use iprl_poc.Common.{
  ℕ, suc, ◌≤◌, List, [], ◌∷◌, ◌++◌, some, Bool, false, ◌≡◌, ◌≢◌, refl, sym, ap, ◌∙◌, ◌⊎◌, inl, inr,
  Text, codes, arith, length, ◌==◌, All, Bool-cases,
}
use iprl_poc.Common.Int.{ℤ, pos, negsuc}
use iprl_poc.Strings.{has_prefix, trim_left, trim, is_space, trim_space, join}
use iprl_poc.Strconv.{decimal}
use iprl_poc.Strconv.Laws.{int_text, decimal-ne-nil, decimal-IsDigit, IsDigit}
use iprl_poc.Agent.Caracal.{CaracalResponse, parse_caracal_response, read_line}
use iprl_poc.Agent.Caracal.RoundTrip.{response_line, IsPrintable, parse_caracal_response-line}

-- A text that begins with a digit or a minus sign.
abbrev pub BeginsNumber : Text → Type 0
BeginsNumber t = (c : ℕ) × (s : Text) × (t ≡ c ∷ s) × ((c ≡ b'-') ⊎ ((b'0' ≤ c) × (c ≤ b'9')))

digits-BeginsNumber : (t : Text) → t ≢ [] → All IsDigit t → BeginsNumber t
digits-BeginsNumber [] n d = absurd (n refl)
digits-BeginsNumber (c ∷ s) n (h, d) = (c, s, refl, inr h)

int_text-BeginsNumber : (z : ℤ) → BeginsNumber (int_text z)
unfolding int_text
int_text-BeginsNumber (pos n) =
    digits-BeginsNumber (decimal n) (decimal-ne-nil n) (decimal-IsDigit n)
int_text-BeginsNumber (negsuc n) = (b'-', decimal (suc n), refl, inl refl)

join-BeginsNumber :
    (sep : ℕ) (p q : Text) (ps : List Text) → BeginsNumber p → BeginsNumber (join sep (p ∷ q ∷ ps))
unfolding join
join-BeginsNumber sep p q ps (c, s, e, h) =
    (c, s ++ sep ∷ join sep (q ∷ ps), ap (λ t. t ++ sep ∷ join sep (q ∷ ps)) e, h)

-- What is left of a text at one end keeps a byte that is not cut off.
trim_left-last :
    (cut : ℕ → Bool) (s : Text) (c : ℕ) → cut c ≡ false → trim_left cut (s ++ c ∷ []) ≢ []
unfolding trim_left
trim_left-last cut [] c k = rw k (λ e. cc)
trim_left-last cut (d ∷ s) c k = elim (Bool-cases (cut d)) [
  | inl cuts ↦ rw (cuts, trim_left) (trim_left-last cut s c k)
  | inr keeps ↦ rw (keeps, trim_left) (λ e. cc)
]

reverse-ne-nil : (s : Text) → s ≢ [] → reverse s ≢ []
reverse-ne-nil s n e = n (sym (reverse-reverse s) ∙ ap reverse e)

trim-head : (cut : ℕ → Bool) (c : ℕ) (s : Text) → cut c ≡ false → trim cut (c ∷ s) ≢ []
unfolding trim
trim-head cut c s k =
    let kept : trim_left cut (c ∷ s) ≡ c ∷ s = unfold trim_left in rw k refl in
    reverse-ne-nil (trim_left cut (reverse (trim_left cut (c ∷ s))))
      (rw kept (rw (reverse-cons c s) (trim_left-last cut (reverse s) c k)))

length-ne-zero : (t : Text) → t ≢ [] → (length t == 0) ≡ false
length-ne-zero [] n = absurd (n refl)
length-ne-zero (c ∷ t) n = ground arith

has_prefix-hash : (c : ℕ) (s : Text) → c ≢ b'#' → has_prefix (c ∷ s) (codes "#") ≡ false
unfolding has_prefix
has_prefix-hash c s n = ground arith

-- A line that begins with a number is neither a comment nor blank.
read_line-number : (t : Text) → BeginsNumber t → read_line t ≡ parse_caracal_response t
unfolding read_line trim_space
read_line-number t (c, s, e, h) =
    let no_hash : has_prefix t (codes "#") ≡ false =
      rw e (has_prefix-hash c s (λ same. ground arith)) in
    let no_space : is_space c ≡ false = ground arith in
    let not_blank : (length (trim_space t) == 0) ≡ false =
      rw e (length-ne-zero (trim is_space (c ∷ s)) (trim-head is_space c s no_space)) in
    rw no_hash (rw not_blank refl)

-- The line of a response with numbers of an int64, addresses without a comma, and a label text without
-- commas is neither passed over as a comment nor as blank, and is read back as that response, whether
-- its addresses are printed mapped or not.
pub read_line-line :
    (mapped : Bool) (r : CaracalResponse)
    → IsPrintable r
    → read_line (response_line mapped r) ≡ some r
read_line-line mapped r p =
    read_line-number (response_line mapped r)
      (join-BeginsNumber _ _ _ _ (int_text-BeginsNumber r.capture_timestamp))
    ∙ parse_caracal_response-line mapped r p
