-- ===== src/Orchestrator/Store/Directory.antt =====
-- The agents that the generators know: while agents have distinct addresses, each generator's list
-- is the registry's list of specs, up to order.
use mathlib.Core.List.{
  Nodup-cons, Nodup-nil, Perm-prop, mem-map_of_mem, mem-cons_self, perm_append_singleton,
}
use mathlib.Core.List.Perm
use mathlib.Core.Logic.Or
use iprl_poc.Common.{
  List, [], ◌∷◌, ◌++◌, some, none, false, ◌≡◌, refl, sym, ap, inl, inr, Text, Option-cases, text_eq,
  arith, map, Mem, Perm, Nodup, not-mem-nil, mem-cons, if_pos, if_neg,
}
use iprl_poc.Common.GoMap.{
  Map, Range, get, insert, delete, values, get-insert, get-delete, get-map_values, map_values,
}
use iprl_poc.Common.GoMap.Entries.{
  Unique, insert-Unique, delete-Unique, values-insert_new, values-delete-perm, values-visit-perm,
}
use iprl_poc.Proto.{
  ProbingAgentSpec, ProbingAgentStatus, ProbingDirectiveGeneratorSpec,
  ProbingDirectiveGeneratorStatus,
}
use iprl_poc.Orchestrator.Store.{
  ComponentStore, new_component_store, append_spec, remove_spec, has_address, with_agent_specs,
  add_or_update_agent, remove_agent, add_or_update_generator, remove_generator,
  get_dirty_agent_uuids, get_dirty_generator_uuids,
}

abbrev pub addresses : List ProbingAgentSpec → List Text
addresses = map (λ x. x.grpc_address)

-- Every generator's list is the list of the registered specs in some order; the addresses differ.
pub record InSync (c : ComponentStore) : Type 0 where
  pub unique : Unique c.agent_specs
  pub distinct : Nodup (addresses (values c.agent_specs))
  pub lists :
      (u : Text) (s : ProbingDirectiveGeneratorStatus)
      → get u c.generator_status ≡ some s
      → Perm s.agent_specs (values c.agent_specs)

pub has_address-fresh :
    (a : Text) (xs : List ProbingAgentSpec) → ¬ Mem a (addresses xs) → has_address a xs ≡ false
unfolding has_address
has_address-fresh a [] h = refl
has_address-fresh a (x ∷ xs) h = elim (text_eq x.grpc_address a) [
  | yes p ↦ absurd (h (mem-cons.1 (Or.inl (sym p))))
  | no p ↦ rw (if_neg _ p) (has_address-fresh a xs (λ m. h (mem-cons.1 (Or.inr m))))
]

-- A spec of a new address goes to the end.
append_spec-fresh :
    (spec : ProbingAgentSpec) (xs : List ProbingAgentSpec)
    → ¬ Mem spec.grpc_address (addresses xs)
    → append_spec spec xs ≡ xs ++ spec ∷ []
unfolding append_spec
append_spec-fresh spec xs h = rw (has_address-fresh spec.grpc_address xs h)

-- The first entry of a member's address is that member, where addresses differ.
remove_spec-perm :
    (x : ProbingAgentSpec) (xs : List ProbingAgentSpec)
    → Nodup (addresses xs)
    → Mem x xs
    → Perm xs (x ∷ remove_spec x.grpc_address xs)
unfolding remove_spec
remove_spec-perm x [] d m = absurd (not-mem-nil m)
remove_spec-perm x (y ∷ ys) d m = elim (text_eq y.grpc_address x.grpc_address) [
  | yes p ↦ rw (if_pos _ p) (
      Or.elim Perm-prop (mem-cons.0 m) (λ e. Perm.cons' (sym e) (Perm.refl ys))
        (λ later. absurd ((Nodup-cons.0 d).0 (rw p (mem-map_of_mem (λ z. z.grpc_address) later)))))
  | no p ↦ rw (if_neg _ p) (
      Or.elim Perm-prop (mem-cons.0 m) (λ e. absurd (p (ap (λ z. z.grpc_address) (sym e))))
        (λ later.
          Perm.trans (Perm.cons y (remove_spec-perm x ys (Nodup-cons.0 d).1 later))
            (Perm.swap x y _)))
]

pub new_component_store-InSync : InSync new_component_store
unfolding new_component_store get
new_component_store-InSync = record {
  unique = tt;
  distinct = Nodup-nil;
  lists = λ u s h. ground arith;
}

-- A write to every list of agents, seen at one generator.
pub lists-map_values {ℓ κ} :
    (P : List ProbingAgentSpec → Type ℓ) (Q : List ProbingAgentSpec → Type κ)
    (f : List ProbingAgentSpec → List ProbingAgentSpec) (m : Map ProbingDirectiveGeneratorStatus)
    → ((u : Text) (s : ProbingDirectiveGeneratorStatus) → get u m ≡ some s → P s.agent_specs)
    → ((xs : List ProbingAgentSpec) → P xs → Q (f xs))
    → (u : Text) (s : ProbingDirectiveGeneratorStatus)
    → get u (map_values (with_agent_specs f) m) ≡ some s
    → Q s.agent_specs
lists-map_values P Q f m h k u s e = elim (Option-cases (get u m)) [
  | inl n ↦ absurd (ground (arith, get-map_values (with_agent_specs f) u m))
  | inr (t, n) ↦
      let same : f t.agent_specs ≡ s.agent_specs =
        ground (arith, get-map_values (with_agent_specs f) u m) in
      rw (← same) (k t.agent_specs (h u t n))
]

fresh-perm :
    {a : Text} {xs ys : List ProbingAgentSpec}
    → Perm xs ys
    → ¬ Mem a (addresses ys)
    → ¬ Mem a (addresses xs)
fresh-perm p h m = h ((Perm.mem_iff (Perm.map _ p)).0 m)

-- An agent that joins under a new uuid at a new address.
pub add_or_update_agent-InSync :
    (spec : ProbingAgentSpec) (status : ProbingAgentStatus) (c : ComponentStore)
    → get status.uuid c.agent_specs ≡ none
    → ¬ Mem spec.grpc_address (addresses (values c.agent_specs))
    → InSync c
    → InSync (add_or_update_agent spec status c)
unfolding add_or_update_agent
add_or_update_agent-InSync spec status c new fresh v =
    let added = values-insert_new status.uuid spec c.agent_specs new in
    rw (new, add_or_update_agent)
      (record {
        unique = insert-Unique status.uuid spec c.agent_specs v.unique;
        distinct = rw added (
            Perm.nodup (Perm.symm (Perm.map _ (perm_append_singleton spec (values c.agent_specs))))
              (Nodup-cons.1 (fresh, v.distinct)));
        lists =
            lists-map_values (λ xs. Perm xs (values c.agent_specs))
              (λ xs. Perm xs (values (insert status.uuid spec c.agent_specs))) (append_spec spec)
              c.generator_status v.lists
              (λ xs p.
                rw (added, append_spec-fresh spec xs (fresh-perm p fresh))
                  (Perm.append_right (spec ∷ []) p));
      })

-- Any agent that leaves.
pub remove_agent-InSync :
    (uuid : Text) (c : ComponentStore) → InSync c → InSync (remove_agent uuid c).0
unfolding remove_agent
remove_agent-InSync uuid c v = elim (Option-cases (get uuid c.agent_specs)) [
  | inl e ↦ rw (e, remove_agent) v
  | inr (spec, e) ↦
      let split = values-delete-perm uuid spec c.agent_specs v.unique e in
      rw (e, remove_agent)
        (record {
          unique = delete-Unique uuid c.agent_specs v.unique;
          distinct = (Nodup-cons.0 (Perm.nodup (Perm.map _ split) v.distinct)).1;
          lists =
              lists-map_values (λ xs. Perm xs (values c.agent_specs))
                (λ xs. Perm xs (values (delete uuid c.agent_specs))) (remove_spec spec.grpc_address)
                c.generator_status v.lists
                (λ xs p. Perm.cons_inv (
                  Perm.trans
                    (Perm.symm (
                      remove_spec-perm spec xs (Perm.nodup (Perm.symm (Perm.map _ p)) v.distinct)
                        ((Perm.mem_iff (Perm.trans p split)).1 mem-cons_self)))
                    (Perm.trans p split)));
        })
]

-- A generator that joins under a new uuid.
pub add_or_update_generator-InSync :
    (r : Range ProbingAgentSpec) (spec : ProbingDirectiveGeneratorSpec)
    (status : ProbingDirectiveGeneratorStatus) (c : ComponentStore)
    → get status.uuid c.generator_specs ≡ none
    → InSync c
    → InSync (add_or_update_generator r spec status c)
unfolding add_or_update_generator
add_or_update_generator-InSync r spec status c new v =
    rw (new, add_or_update_generator)
      (record {
        unique = v.unique;
        distinct = v.distinct;
        lists = λ u s h. elim (text_eq status.uuid u) [
          | yes p ↦
              let own : s.agent_specs ≡ values (r.visit c.agent_specs) = ground (
                arith,
                get-insert status.uuid u
                    (record status { agent_specs = values (r.visit c.agent_specs) })
                    c.generator_status,
              ) in
              rw own (values-visit-perm r c.agent_specs)
          | no p ↦ v.lists u s (
              ground (
                arith,
                get-insert status.uuid u
                    (record status { agent_specs = values (r.visit c.agent_specs) })
                    c.generator_status,
              ))
        ];
      })

-- Any generator that leaves.
pub remove_generator-InSync :
    (uuid : Text) (c : ComponentStore) → InSync c → InSync (remove_generator uuid c).0
unfolding remove_generator
remove_generator-InSync uuid c v = elim (Option-cases (get uuid c.generator_specs)) [
  | inl e ↦ rw (e, remove_generator) v
  | inr (spec, e) ↦
      rw (e, remove_generator)
        (record {
          unique = v.unique;
          distinct = v.distinct;
          lists = λ u s h. v.lists u s (ground (arith, get-delete uuid u c.generator_status));
        })
]

-- Draining the dirty sets touches neither the registry nor a list.
pub get_dirty-InSync :
    (r q : Range (Unit {0})) (c : ComponentStore)
    → InSync c
    → InSync (get_dirty_generator_uuids q (get_dirty_agent_uuids r c).1).1
unfolding get_dirty_agent_uuids get_dirty_generator_uuids
get_dirty-InSync r q c v = record { unique = v.unique; distinct = v.distinct; lists = v.lists }
