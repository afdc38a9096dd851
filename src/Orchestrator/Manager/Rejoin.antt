-- ===== src/Orchestrator/Manager/Rejoin.antt =====
-- An agent whose stream breaks joins again under a new uuid and leaves under that one only
-- (`runElementStream` of internal/components/agent/manager.go): what the registry of
-- internal/components/orchestrator then holds.
use mathlib.Core.List.{Nodup-cons, mem-cons_self}
use mathlib.Core.List.Perm
use mathlib.Core.Logic.Or
use iprl_poc.Common.{
  List, [], ◌∷◌, some, none, Bool, true, false, ◌≡◌, refl, sym, ap, Text, text_eq, arith, Mem, Perm,
  Nodup, if_pos, if_neg, mem-cons, not-mem-nil,
}
use iprl_poc.Common.GoMap.{get, insert, values, map_values, get-insert, get-delete}
use iprl_poc.Common.GoMap.Entries.{values-delete-perm}
use iprl_poc.Proto.{ProbingAgentSpec, ProbingDirectiveGeneratorStatus}
use iprl_poc.Orchestrator.Store.{
  ComponentStore, announce_new_agent, forget_agent, add_or_update_agent, remove_agent, has_address,
  append_spec, remove_spec, with_agent_specs,
}
use iprl_poc.Orchestrator.Store.Directory.{InSync, addresses, has_address-fresh, lists-map_values}
use iprl_poc.Orchestrator.Manager.{OrchestratorManager, agent_status_for, join_agent, leave}

-- An address that is listed already is not added again.
append_spec-present :
    (spec : ProbingAgentSpec) (xs : List ProbingAgentSpec)
    → has_address spec.grpc_address xs ≡ true
    → append_spec spec xs ≡ xs
unfolding append_spec
append_spec-present spec xs h = rw h

has_address-present :
    (x : ProbingAgentSpec) (xs : List ProbingAgentSpec)
    → Mem x xs
    → has_address x.grpc_address xs ≡ true
unfolding has_address
has_address-present x [] h = absurd (not-mem-nil h)
has_address-present x (y ∷ ys) h = elim (text_eq y.grpc_address x.grpc_address) [
  | yes p ↦ rw (if_pos _ p)
  | no p ↦
      let flat : IsSet Bool = hlevel in
      rw (if_neg _ p) (
        Or.elim (flat _ _) (mem-cons.0 h) (λ e. absurd (p (ap (λ z. z.grpc_address) (sym e))))
          (λ later. has_address-present x ys later))
]

-- With distinct addresses, one removal leaves none of that address.
has_address-remove_spec :
    (a : Text) (xs : List ProbingAgentSpec)
    → Nodup (addresses xs)
    → has_address a (remove_spec a xs) ≡ false
unfolding has_address remove_spec
has_address-remove_spec a [] d = refl
has_address-remove_spec a (x ∷ xs) d = elim (text_eq x.grpc_address a) [
  | yes p ↦ rw (if_pos _ p) (has_address-fresh a xs (rw p at (Nodup-cons.0 d).0))
  | no p ↦ rw (if_neg _ p) (rw (if_neg _ p) (has_address-remove_spec a xs (Nodup-cons.0 d).1))
]

join_agent-new :
    (id : Text) (spec : ProbingAgentSpec) (m : OrchestratorManager)
    → get id m.store.agent_specs ≡ none
    → (join_agent id spec m).0.store
      ≡ announce_new_agent spec (record m.store {
        agent_specs = insert id spec m.store.agent_specs;
        agent_status = insert id (agent_status_for id m) m.store.agent_status;
      })
unfolding join_agent add_or_update_agent
join_agent-new id spec m new = rw (new, add_or_update_agent)

leave-agent :
    (uuid : Text) (spec : ProbingAgentSpec) (m : OrchestratorManager) (c : ComponentStore)
    → m.store ≡ c
    → get uuid c.agent_specs ≡ some spec
    → (leave uuid m).0.store ≡ forget_agent uuid spec c
unfolding leave remove_agent
leave-agent uuid spec m c e found = ground arith

-- An agent that is registered, joins again with the same spec under a fresh uuid, and leaves under
-- that uuid is still registered under the first one, yet no generator lists its address any more.
pub rejoin_then_leave :
    (id again : Text) (spec : ProbingAgentSpec) (m : OrchestratorManager)
    → InSync m.store
    → get id m.store.agent_specs ≡ some spec
    → get again m.store.agent_specs ≡ none
    → let after = (leave again (join_agent again spec m).0).0 in
      (get id after.store.agent_specs ≡ some spec)
      × ((u : Text) (s : ProbingDirectiveGeneratorStatus)
          → get u after.store.generator_status ≡ some s
          → has_address spec.grpc_address s.agent_specs ≡ false)
unfolding announce_new_agent forget_agent
rejoin_then_leave id again spec m v known fresh =
    let specs = m.store.agent_specs in
    let found : get again (insert again spec specs) ≡ some spec =
      ground (arith, get-insert again again spec specs) in
    let listed : Mem spec (values specs) =
      (Perm.mem_iff (values-delete-perm id spec specs v.unique known)).1 mem-cons_self in
    let IsSame : List ProbingAgentSpec → Type 0 = λ xs. Perm xs (values specs) in
    let joined = (join_agent again spec m).0 in
    let stored : ComponentStore = record m.store {
      agent_specs = insert again spec specs;
      agent_status = insert again (agent_status_for again m) m.store.agent_status;
    } in
    rw
      (leave-agent again spec joined (announce_new_agent spec stored)
        (join_agent-new again spec m fresh) found)
      (
        ground
            (arith, get-insert again id spec specs, get-delete again id (insert again spec specs)),
        lists-map_values IsSame (λ xs. has_address spec.grpc_address xs ≡ false)
            (remove_spec spec.grpc_address)
            (map_values (with_agent_specs (append_spec spec)) m.store.generator_status)
            (lists-map_values IsSame IsSame (append_spec spec) m.store.generator_status v.lists
              (λ xs p.
                rw
                  (append_spec-present spec xs
                    (has_address-present spec xs ((Perm.mem_iff p).1 listed)))
                  p))
            (λ xs p.
              has_address-remove_spec spec.grpc_address xs
                (Perm.nodup (Perm.symm (Perm.map _ p)) v.distinct)),
      )
