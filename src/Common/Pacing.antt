-- ===== src/Common/Pacing.antt =====
-- `time.Second / time.Duration(n)` in int64 arithmetic: the pause between two sends.
use Prim.Native.Nat.{ℕ, zero, suc, ◌+◌, ◌*◌, ◌/◌, ◌≤◌, ◌<◌, ◌^◌}
use mathlib.Core.Path.{◌≡◌, refl}
use mathlib.Core.Option.{Option, none, some}
use native.Mathlib.Omega.{arith}
use iprl_poc.Common.Int.{ℤ, pos, negsuc, ◌-ℤ◌, wrap64, wrap64-pos}

abbrev pub second : ℕ
second = 1000000000

-- The quotient is truncated towards zero; none is the panic of a division by zero.
unfoldable pub div_second : ℤ → Option ℤ
div_second (pos zero) = none
div_second (pos (suc n)) = some (pos (second / suc n))
div_second (negsuc n) = some (pos 0 -ℤ pos (second / suc n))

-- The longest pause at which `rate` sends fit in a second.
abbrev pub Paces : ℕ → ℕ → Type 0
Paces rate n = (n * rate ≤ second) × (second < (n + 1) * rate)

pub div_second-pos : (n : ℕ) → 0 < n → (q : ℕ) × (div_second (pos n) ≡ some (pos q)) × Paces n q
unfolding div_second
div_second-pos zero h = elim h [ ]
div_second-pos (suc n) h = (second / suc n, refl, (grind arith, grind arith))

-- The int64 product of two numbers that fits.
pub div_second-wrap :
    (n : ℕ)
    → 0 < n
    → n < 2 ^ 63
    → (q : ℕ) × (div_second (wrap64 (pos n)) ≡ some (pos q)) × Paces n q
div_second-wrap n h b = rw (wrap64-pos n b) (div_second-pos n h)
