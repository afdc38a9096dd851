-- ===== src/Orchestrator/Store/Loops.antt =====
-- The loops with `break` over a generator's agent list in
-- internal/components/orchestrator/store.go, against what they do to the list as a whole.
use mathlib.Core.List.{Nodup-cons}
use mathlib.Core.Logic.Or
use iprl_poc.Common.{
  List, [], ◌∷◌, ◌≡◌, refl, sym, ap, Text, text_eq, ite, if_pos, if_neg, map, Mem, Nodup, mem-cons,
}
use iprl_poc.Proto.{ProbingAgentSpec}
use iprl_poc.Orchestrator.Store.{replace_spec, remove_spec}
use iprl_poc.Orchestrator.Store.Directory.{addresses}

-- Every spec of the address is left out.
abbrev pub without : Text → List ProbingAgentSpec → List ProbingAgentSpec
without a [] = []
without a (x ∷ xs) = ite (text_eq x.grpc_address a) (without a xs) (x ∷ without a xs)

-- Every spec of the new one's address is exchanged for it.
abbrev pub exchanged : ProbingAgentSpec → ProbingAgentSpec → ProbingAgentSpec
exchanged spec x = ite (text_eq x.grpc_address spec.grpc_address) spec x

without-absent :
    (a : Text) (xs : List ProbingAgentSpec) → ¬ Mem a (addresses xs) → without a xs ≡ xs
without-absent a [] h = refl
without-absent a (x ∷ xs) h = elim (text_eq x.grpc_address a) [
  | yes p ↦ absurd (h (mem-cons.1 (Or.inl (sym p))))
  | no p ↦ rw (if_neg _ p) (ap (λ t. x ∷ t) (without-absent a xs (λ m. h (mem-cons.1 (Or.inr m)))))
]

exchanged-absent :
    (spec : ProbingAgentSpec) (xs : List ProbingAgentSpec)
    → ¬ Mem spec.grpc_address (addresses xs)
    → map (exchanged spec) xs ≡ xs
exchanged-absent spec [] h = refl
exchanged-absent spec (x ∷ xs) h = elim (text_eq x.grpc_address spec.grpc_address) [
  | yes p ↦ absurd (h (mem-cons.1 (Or.inl (sym p))))
  | no p ↦
      rw (if_neg _ p) (ap (λ t. x ∷ t) (exchanged-absent spec xs (λ m. h (mem-cons.1 (Or.inr m)))))
]

remove_spec-without :
    (a : Text) (xs : List ProbingAgentSpec) → Nodup (addresses xs) → remove_spec a xs ≡ without a xs
unfolding remove_spec
remove_spec-without a [] d = refl
remove_spec-without a (x ∷ xs) d = elim (text_eq x.grpc_address a) [
  | yes p ↦
      let alone : without a xs ≡ xs = without-absent a xs (rw p at (Nodup-cons.0 d).0) in
      rw (if_pos _ p) (rw (if_pos _ p) (sym alone))
  | no p ↦
      rw (if_neg _ p)
        (rw (if_neg _ p) (ap (λ t. x ∷ t) (remove_spec-without a xs (Nodup-cons.0 d).1)))
]

replace_spec-exchanged :
    (spec : ProbingAgentSpec) (xs : List ProbingAgentSpec)
    → Nodup (addresses xs)
    → replace_spec spec xs ≡ map (exchanged spec) xs
unfolding replace_spec
replace_spec-exchanged spec [] d = refl
replace_spec-exchanged spec (x ∷ xs) d = elim (text_eq x.grpc_address spec.grpc_address) [
  | yes p ↦
      let alone = exchanged-absent spec xs (rw p at (Nodup-cons.0 d).0) in
      rw (if_pos _ p) (rw (if_pos _ p) (ap (λ t. spec ∷ t) (sym alone)))
  | no p ↦
      rw (if_neg _ p)
        (rw (if_neg _ p) (ap (λ t. x ∷ t) (replace_spec-exchanged spec xs (Nodup-cons.0 d).1)))
]

addresses-replace_spec :
    (spec : ProbingAgentSpec) (xs : List ProbingAgentSpec)
    → addresses (replace_spec spec xs) ≡ addresses xs
unfolding replace_spec
addresses-replace_spec spec [] = refl
addresses-replace_spec spec (x ∷ xs) = elim (text_eq x.grpc_address spec.grpc_address) [
  | yes p ↦ rw (if_pos _ p) (ap (λ a. a ∷ addresses xs) (sym p))
  | no p ↦ rw (if_neg _ p) (ap (λ t. x.grpc_address ∷ t) (addresses-replace_spec spec xs))
]

-- While a generator's agents have distinct addresses, the loops that stop at the first match do what
-- a pass over the whole list does: the one removes every spec of the address, the other exchanges
-- every spec of the address for the new one, and the addresses stay as they are.
pub break_loops-whole_list :
    (spec : ProbingAgentSpec) (xs : List ProbingAgentSpec)
    → Nodup (addresses xs)
    → (remove_spec spec.grpc_address xs ≡ without spec.grpc_address xs)
      × (replace_spec spec xs ≡ map (exchanged spec) xs)
      × (addresses (replace_spec spec xs) ≡ addresses xs)
break_loops-whole_list spec xs d = (
  remove_spec-without spec.grpc_address xs d,
  replace_spec-exchanged spec xs d,
  addresses-replace_spec spec xs,
)
