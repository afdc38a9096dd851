-- ===== src/Strconv.antt =====
-- Numbers as text: `%d` and package strconv.
pub mod Laws
use iprl_poc.Common.{
  ℕ, zero, suc, ◌+◌, ◌-◌, ◌*◌, ◌/◌, ◌%◌, ◌^◌, ◌≤◌, ◌<◌, [], ◌∷◌, ◌++◌, Bool, true, false, ◌&&◌, ◌≡◌,
  ◌≢◌, refl, Text, All, All-append, arith, ltb, leb, ◌==◌, if◌then◌else◌,
}
use iprl_poc.Common.Int.{ℤ, pos, negsuc, sub_ℕ}

-- One round for each digit; the fuel is more than the number.
unfoldable pub print_digits : ℕ → ℕ → Text
print_digits zero n = []
print_digits (suc f) n =
    let rest = print_digits f (n / 10) in
    if ltb n 10 then (b'0' + n) ∷ [] else rest ++ (b'0' + n % 10) ∷ []

-- `%d` of an unsigned number.
unfoldable pub decimal : ℕ → Text
unfolding print_digits
decimal n = print_digits (suc n) n

-- What strconv.ParseUint finds: a number, a syntax error, or a number above the largest of the type.
pub data Scanned : Type 0 where
  number : ℕ → Scanned
  bad_syntax : Scanned
  out_of_range : Scanned

abbrev pub is_digit : ℕ → Bool
is_digit c = leb b'0' c && leb c b'9'

unfoldable pub scan_digits : ℕ → Text → ℕ → Scanned
scan_digits max [] n = number n
scan_digits max (c ∷ s) n =
    let n' = n * 10 + (c - b'0') in
    let rest = scan_digits max s n' in
    if is_digit c then (if ltb max n' then out_of_range else rest) else bad_syntax

unfoldable pub scan_uint : ℕ → Text → Scanned
unfolding scan_digits
scan_uint max [] = bad_syntax
scan_uint max (c ∷ s) = scan_digits max (c ∷ s) 0

-- `v, _ := strconv.ParseUint(s, 10, w)` with max = 2 ^ w - 1: the value beside an ignored error.
unfoldable pub parse_uint : ℕ → Text → ℕ
unfolding scan_uint
parse_uint max s = elim (scan_uint max s) [ number n ↦ n | bad_syntax ↦ 0 | out_of_range ↦ max ]

abbrev pub u64_max : ℕ
u64_max = 2 ^ 64 - 1

-- The int64 for a sign and a magnitude, at the type's bounds if it does not fit.
unfoldable pub clamp_int : Bool → Scanned → ℤ
clamp_int neg bad_syntax = pos 0
clamp_int neg out_of_range = if neg then negsuc (2 ^ 63 - 1) else pos (2 ^ 63 - 1)
clamp_int neg (number n) =
    if neg
    then (if ltb (2 ^ 63) n then negsuc (2 ^ 63 - 1) else sub_ℕ 0 n)
    else (if ltb n (2 ^ 63) then pos n else pos (2 ^ 63 - 1))

-- `v, _ := strconv.ParseInt(s, 10, 64)`, and Atoi where int has 64 bits.
unfoldable pub parse_int : Text → ℤ
unfolding scan_uint clamp_int
parse_int [] = pos 0
parse_int (c ∷ s) =
    if c == b'-'
    then clamp_int true (scan_uint u64_max s)
    else if c == b'+'
    then clamp_int false (scan_uint u64_max s)
    else clamp_int false (scan_uint u64_max (c ∷ s))
