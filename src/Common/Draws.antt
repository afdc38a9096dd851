-- ===== src/Common/Draws.antt =====
-- The draws of math/rand, which is outside: `Rng` gives the i-th draw of `Intn(n)`, which is below n;
-- `Intn(0)` panics. The number of the next draw is passed along.
use Prim.Native.Nat.{ℕ, suc, ◌<◌}
use mathlib.Core.Path.{◌≡◌}
use mathlib.Core.List.{List}
use mathlib.Core.Option.{Option, none, some}
use native.Mathlib.Omega.{arith}
use iprl_poc.Common.Tests.{◌==◌, if◌then◌else◌}
use iprl_poc.Common.Lists.{length, All}

pub record Rng : Type 0 where
  pub intn : ℕ → ℕ → ℕ
  pub intn-lt : (i n : ℕ) → 0 < n → intn i n < n

-- A draw of `Intn(n)`; none is its panic.
unfoldable pub draw : Rng → ℕ → ℕ → Option (ℕ × ℕ)
draw rng n i = if n == 0 then none else some (rng.intn i n, suc i)

infixl 5 ◌>>=◌
abbrev pub ◌>>=◌ {ℓ κ} : {A : Type ℓ} {B : Type κ} → Option A → (A → Option B) → Option B
none >>= f = none
some a >>= f = f a

pub draw-total :
    (rng : Rng) (n i : ℕ) → 0 < n → (k : ℕ) × (draw rng n i ≡ some (k, suc i)) × (k < n)
unfolding draw
draw-total rng n i h = (rng.intn i n, ground arith, rng.intn-lt i n h)

-- Four bytes.
abbrev pub IsAddress : List ℕ → Type 0
IsAddress ip = (length ip ≡ 4) × All (λ b. b < 256) ip
