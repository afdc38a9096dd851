-- ===== src/Components/Group.antt =====
-- golang.org/x/sync/errgroup, as the managers under internal/components use it: a group of goroutines
-- and the context derived from a parent. Its operations are parameters, with what its documentation
-- says of them.
use mathlib.Core.Logic.Or
use mathlib.Core.List.{Mem-prop}
use iprl_poc.Common.{
  List, [], ◌∷◌, ◌++◌, Option, none, some, Bool, true, false, ◌≡◌, refl, sym, Mem, mem-cons,
  not-mem-nil, ◌↔◌, arith, ◌⊎◌, inl, inr, ◌≢◌,
}

pub record ErrGroup (E : Type 0) : Type 1 where
  pub State : Type 0
  -- errgroup.WithContext
  pub start : State
  -- the parent context is cancelled
  pub cancelled : State → State
  -- the function of one goroutine returns
  pub returns : Option E → State → State
  -- whether the derived context is done
  pub is_done : State → Bool
  -- what Wait returns once all have returned
  pub wait : State → Option E

-- `e`, or the second error if that is nil.
abbrev pub or_else {ℓ} : {E : Type ℓ} → Option E → Option E → Option E
or_else none r = r
or_else (some e) r = some e

pub or_else-none {ℓ} : {E : Type ℓ} (q r : Option E) → or_else q r ≡ none → (q ≡ none) × (r ≡ none)
or_else-none none r h = (refl, h)
or_else-none (some e) r h = absurd (ground arith)

pub or_else-nil {ℓ} : {E : Type ℓ} (q : Option E) → or_else q none ≡ q
or_else-nil none = refl
or_else-nil (some e) = refl

-- "The derived Context is canceled the first time a function passed to Go returns a non-nil error";
-- Wait "returns the first non-nil error (if any) from them".
pub record IsErrGroup {E : Type 0} (g : ErrGroup E) : Type 0 where
  pub start-is_done : g.is_done g.start ≡ false
  pub start-wait : g.wait g.start ≡ none
  pub cancelled-is_done : (s : g.State) → g.is_done (g.cancelled s) ≡ true
  pub cancelled-wait : (s : g.State) → g.wait (g.cancelled s) ≡ g.wait s
  pub returns_nil-is_done : (s : g.State) → g.is_done (g.returns none s) ≡ g.is_done s
  pub returns_error-is_done : (s : g.State) (e : E) → g.is_done (g.returns (some e) s) ≡ true
  pub returns-wait : (s : g.State) (r : Option E) → g.wait (g.returns r s) ≡ or_else (g.wait s) r

-- The first non-nil error of a list of results.
abbrev pub first_error {ℓ} : {E : Type ℓ} → List (Option E) → Option E
first_error [] = none
first_error (none ∷ rs) = first_error rs
first_error (some e ∷ rs) = some e

pub first_error-append {ℓ} :
    {E : Type ℓ} (rs : List (Option E)) (r : Option E)
    → first_error (rs ++ r ∷ []) ≡ or_else (first_error rs) r
first_error-append [] none = refl
first_error-append [] (some e) = refl
first_error-append (none ∷ rs) r = first_error-append rs r
first_error-append (some e ∷ rs) r = refl

-- A group of goroutines on its way: the results so far, in the order of return.
module _ {E : Type 0} (g : ErrGroup E) where
  pub record Progress : Type 0 where
    pub group : g.State
    pub returned : List (Option E)

  abbrev pub started : Progress
  started = record { group = g.start; returned = [] }

  abbrev pub reports : Option E → Progress → Progress
  reports r p = record { group = g.returns r p.group; returned = p.returned ++ r ∷ [] }

  abbrev pub signalled : Progress → Progress
  signalled p = record p { group = g.cancelled p.group }

  -- Wait returns the first error reported.
  abbrev pub WaitsFirst : Progress → Type 0
  WaitsFirst p = g.wait p.group ≡ first_error p.returned

  module _ (h : IsErrGroup g) where
    pub reports-WaitsFirst : (r : Option E) (p : Progress) → WaitsFirst p → WaitsFirst (reports r p)
    reports-WaitsFirst r p w =
        rw (h.returns-wait p.group r, w) (sym (first_error-append p.returned r))

    -- A context that is done stays so.
    pub reports-is_done :
        (r : Option E) (p : Progress)
        → g.is_done p.group ≡ true
        → g.is_done (reports r p).group ≡ true
    reports-is_done none p d = rw (h.returns_nil-is_done p.group) d
    reports-is_done (some e) p d = h.returns_error-is_done p.group e

-- A result stays reported.
pub Mem-reported {ℓ} :
    {E : Type ℓ} (r : Option E) (rs : List (Option E)) (q : Option E)
    → Mem r rs
    → Mem r (rs ++ q ∷ [])
Mem-reported r [] q h = absurd (not-mem-nil h)
Mem-reported r (x ∷ rs) q h =
    Or.elim Mem-prop (mem-cons.0 h) (λ e. mem-cons.1 (Or.inl e))
      (λ later. mem-cons.1 (Or.inr (Mem-reported r rs q later)))

pub Mem-last {ℓ} : {E : Type ℓ} (r : Option E) (rs : List (Option E)) → Mem r (rs ++ r ∷ [])
Mem-last r [] = mem-cons.1 (Or.inl refl)
Mem-last r (x ∷ rs) = mem-cons.1 (Or.inr (Mem-last r rs))

-- What the servers of a manager fail with, and what its loops return; `failed` has the error of a
-- call outside of the repository.
pub data RunError (E : Type 0) : Type 0 where
  canceled : RunError E
  element_channel_closed : RunError E
  failed : E → RunError E

-- The end of each Run: `if err := g.Wait(); err != nil && err != context.Canceled`.
unfoldable pub run_result : {E : Type 0} → Option (RunError E) → Option (RunError E)
run_result none = none
run_result (some canceled) = none
run_result (some element_channel_closed) = some element_channel_closed
run_result (some (failed e)) = some (failed e)

pub run_result-some : {E : Type 0} (e : RunError E) → (run_result (some e) ≡ none) ↔ (e ≡ canceled)
unfolding run_result
run_result-some canceled = ((λ h. refl), λ h. refl)
run_result-some element_channel_closed = ((λ h. ground arith), λ h. ground arith)
run_result-some (failed e) = ((λ h. ground arith), λ h. ground arith)

-- What Run returns for the error `wait` that Wait gives: nil for nil and for context.Canceled, and any
-- other error as it is.
abbrev pub Filters : {E : Type 0} → Option (RunError E) → Option (RunError E) → Type 0
Filters {E} waited result =
    (((waited ≡ none) ⊎ (waited ≡ some canceled)) × (result ≡ none))
    ⊎ ((e : RunError E) × (e ≢ canceled) × (waited ≡ some e) × (result ≡ some e))

pub run_result-Filters :
    {E : Type 0} (waited : Option (RunError E)) → Filters waited (run_result waited)
unfolding run_result
run_result-Filters none = inl (inl refl, refl)
run_result-Filters (some canceled) = inl (inr refl, refl)
run_result-Filters (some element_channel_closed) =
    inr (element_channel_closed, (λ h. ground arith), refl, refl)
run_result-Filters (some (failed e)) = inr (failed e, (λ h. ground arith), refl, refl)

pub first_error-some {ℓ} :
    {E : Type ℓ} (e : E) (rs : List (Option E))
    → Mem (some e) rs
    → (e' : E) × (first_error rs ≡ some e')
first_error-some e (some x ∷ rs) h = (x, refl)
first_error-some e (none ∷ rs) h =
    first_error-some e rs
      (Or.elim Mem-prop (mem-cons.0 h) (λ p. absurd (ground (arith, p))) (λ later. later))
first_error-some e [] h = absurd (not-mem-nil h)
