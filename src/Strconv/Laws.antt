-- ===== src/Strconv/Laws.antt =====
-- Printing a number and reading it back.
use iprl_poc.Common.{
  ℕ, zero, suc, ◌+◌, ◌/◌, ◌%◌, ◌^◌, ◌≤◌, ◌<◌, [], ◌∷◌, ◌++◌, ◌≡◌, ◌≢◌, refl, ap, sym, ◌∙◌, Text,
  All, All-append, All-mono, arith, ltb, append_assoc, append-nil, Bool-cases, ◌⊎◌, inl, inr,
  ltb→lt,
}
use mathlib.Core.List.{concat-ne-nil}
use iprl_poc.Common.Int.{ℤ, pos, negsuc}
use iprl_poc.Strings.Split.{Lacks}
use iprl_poc.Strconv.{print_digits, decimal, number, scan_digits, scan_uint, u64_max, parse_int}

abbrev pub IsDigit : ℕ → Type 0
IsDigit c = (b'0' ≤ c) × (c ≤ b'9')

print_digits-IsDigit : (f n : ℕ) → All IsDigit (print_digits f n)
unfolding print_digits
print_digits-IsDigit zero n = tt
print_digits-IsDigit (suc f) n = elim (Bool-cases (ltb n 10)) [
  | inl small ↦ rw (small, print_digits) ((omega arith, omega (arith, ltb→lt _ _ small)), tt)
  | inr large ↦
      rw (large, print_digits)
        (All-append IsDigit (print_digits f (n / 10)) _ (print_digits-IsDigit f (n / 10))
          ((omega arith, omega arith), tt))
]

pub decimal-IsDigit : (n : ℕ) → All IsDigit (decimal n)
unfolding decimal
decimal-IsDigit n = print_digits-IsDigit (suc n) n

-- A printed number holds no byte but digits.
pub decimal-Lacks : (sep n : ℕ) → sep < b'0' ⊎ (b'9' < sep) → Lacks sep (decimal n)
unfolding decimal
decimal-Lacks sep n h = All-mono (decimal n) (λ c d. ground arith) (print_digits-IsDigit (suc n) n)

-- The scan reads the digits of a number as that number.
scan_digits-print :
    (max f n : ℕ) (rest : Text)
    → n < f
    → n ≤ max
    → scan_digits max (print_digits f n ++ rest) 0 ≡ scan_digits max rest n
unfolding print_digits scan_digits
scan_digits-print max zero n rest h b = elim h [ ]
scan_digits-print max (suc f) n rest h b = elim (Bool-cases (ltb n 10)) [
  | inl small ↦ rw (small, print_digits) (ground arith)
  | inr large ↦
      rw (large, print_digits)
        (rw append_assoc (
          scan_digits-print max f (n / 10) ((b'0' + n % 10) ∷ rest) (ground arith) (omega arith)
          ∙ ground arith))
]

pub scan_digits-decimal : (max n : ℕ) → n ≤ max → scan_digits max (decimal n) 0 ≡ number n
unfolding decimal scan_digits
scan_digits-decimal max n h =
    ap (λ t. scan_digits max t 0) (sym (append-nil (decimal n)))
    ∙ scan_digits-print max (suc n) n [] (omega arith) h

-- Different numbers print differently.
pub decimal_inj : (m n : ℕ) → decimal m ≡ decimal n → m ≡ n
decimal_inj m n e = cc (
  ap (λ t. scan_digits (m + n) t 0) e,
  scan_digits-decimal (m + n) m (omega arith),
  scan_digits-decimal (m + n) n (omega arith),
)

pub decimal-ne-nil : (n : ℕ) → decimal n ≢ []
unfolding decimal
decimal-ne-nil n = elim (Bool-cases (ltb n 10)) [
  | inl small ↦ rw (small, print_digits) (λ e. cc)
  | inr large ↦ rw (large, print_digits) (concat-ne-nil _ (print_digits n (n / 10)))
]

parse_int-scan :
    (t : Text) (n : ℕ)
    → t ≢ []
    → All IsDigit t
    → scan_digits u64_max t 0 ≡ number n
    → n < 2 ^ 63
    → parse_int t ≡ pos n
unfolding parse_int
parse_int-scan [] n ne d h b = absurd (ne refl)
parse_int-scan (c ∷ s) n ne d h b = ground (arith, h)

-- Atoi reads a printed number that an int64 holds.
pub parse_int-decimal : (n : ℕ) → n < 2 ^ 63 → parse_int (decimal n) ≡ pos n
parse_int-decimal n h =
    parse_int-scan (decimal n) n (decimal-ne-nil n)
      (unfold decimal in print_digits-IsDigit (suc n) n)
      (scan_digits-decimal u64_max n (omega arith)) h

-- The decimal print of an int64.
unfoldable pub int_text : ℤ → Text
int_text (pos n) = decimal n
int_text (negsuc n) = b'-' ∷ decimal (suc n)

abbrev pub InInt64 : ℤ → Type 0
InInt64 (pos n) = n < 2 ^ 63
InInt64 (negsuc n) = n < 2 ^ 63

scan_uint-decimal : (n : ℕ) → n ≤ u64_max → scan_uint u64_max (decimal n) ≡ number n
scan_uint-decimal n h =
    scan_uint-cons (decimal n) n (decimal-ne-nil n) (scan_digits-decimal u64_max n h)
  where
    scan_uint-cons :
        (t : Text) (n : ℕ)
        → t ≢ []
        → scan_digits u64_max t 0 ≡ number n
        → scan_uint u64_max t ≡ number n
    scan_uint-cons [] n ne e = absurd (ne refl)
    scan_uint-cons (c ∷ s) n ne e = unfold scan_uint in e

-- Atoi reads every printed int64 back.
pub parse_int-int_text : (z : ℤ) → InInt64 z → parse_int (int_text z) ≡ z
unfolding int_text
parse_int-int_text (pos n) h = parse_int-decimal n h
parse_int-int_text (negsuc n) h =
    unfold parse_int in ground (arith, scan_uint-decimal (suc n) (omega arith))

pub int_text-Lacks : (z : ℤ) → Lacks b',' (int_text z)
unfolding int_text
int_text-Lacks (pos n) = decimal-Lacks b',' n (inl (omega arith))
int_text-Lacks (negsuc n) = (omega arith, decimal-Lacks b',' (suc n) (inl (omega arith)))
