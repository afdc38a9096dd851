-- ===== src/Orchestrator/Manager/Announce.antt =====
-- How a new agent reaches the generators: a Join and then a tick of the notification loop,
-- internal/components/orchestrator/manager.go.
use mathlib.Core.List.{Mem-prop, mem-cons_self}
use mathlib.Core.List.Perm
use mathlib.Core.Logic.Or
use iprl_poc.Common.{
  List, [], ◌∷◌, none, some, true, ◌≡◌, sym, ap, ◌∙◌, Text, arith, ok, err, Result, All-mono, Mem,
  mem-cons, not-mem-nil,
}
use iprl_poc.Common.GoMap.{Range, get, keys, contains, get-map_values}
use iprl_poc.Common.GoMap.Entries.{mem_of_contains, visit-contains, filter_keys-All}
use iprl_poc.Proto.{
  ProbingAgentSpec, ProbingDirectiveGeneratorSpec, ProbingDirectiveGeneratorStatus,
}
use iprl_poc.Orchestrator.Store.{
  ComponentStore, OrchestratorError, append_spec, with_agent_specs, add_or_update_agent,
  get_dirty_agent_uuids, get_dirty_generator_uuids, get_generator,
}
use iprl_poc.Orchestrator.Store.Consistency.{
  IsConsistent, contains-mark_all, add_or_update_agent-IsConsistent,
}
use iprl_poc.Orchestrator.Store.Consistency.Updates.{get_dirty_agent_uuids-IsConsistent}
use iprl_poc.Orchestrator.Manager.{
  OrchestratorManager, GeneratorNotice, agent_status_for, join_agent, generator_notices,
  notify_changed_agents, notify_changed_generators, notification_tick,
}

-- A notice stays when the loop puts another one before it or passes over a uuid.
later-Mem :
    (o : Result OrchestratorError GeneratorNotice) (n : GeneratorNotice)
    (rest : List GeneratorNotice)
    → Mem n rest
    → Mem n (elim o [ err _ ↦ rest | ok notice ↦ notice ∷ rest ])
later-Mem (err e) n rest h = h
later-Mem (ok notice) n rest h = mem-cons.1 (Or.inr h)

generator_notices-Mem :
    (us : List Text) (c : ComponentStore) (u : Text) (n : GeneratorNotice)
    → Mem u us
    → get_generator u c ≡ ok n
    → Mem n (generator_notices us c)
unfolding generator_notices
generator_notices-Mem [] c u n h e = absurd (not-mem-nil h)
generator_notices-Mem (v ∷ us) c u n h e =
    Or.elim Mem-prop (mem-cons.0 h)
      (λ same.
        let here : get_generator v c ≡ ok n = ap (λ w. get_generator w c) (sym same) ∙ e in
        rw (here, generator_notices) mem-cons_self)
      (λ later. later-Mem (get_generator v c) n _ (generator_notices-Mem us c u n later e))

-- A dirty generator is told, in any round, what the store holds for it.
notify_changed_generators-tells :
    (r : Range (Unit {0})) (c : ComponentStore) (u : Text) (n : GeneratorNotice)
    → IsConsistent c
    → contains u c.dirty_generator_uuids ≡ true
    → get_generator u c ≡ ok n
    → Mem n (notify_changed_generators r c).0
unfolding notify_changed_generators get_dirty_generator_uuids get_generator
notify_changed_generators-tells r c u n v dirty e =
    let d = c.dirty_generator_uuids in
    let visited : Mem u (keys (r.visit d)) =
      (Perm.mem_iff (Perm.map _ (r.visit-perm d))).1 (mem_of_contains u d dirty) in
    let known = All-mono (keys (r.visit d)) v.dirty_generators (visit-contains r d) in
    let kept =
      filter_keys-All c.generator_status (keys (r.visit d))
        (All-mono (keys (r.visit d)) (λ w h. sym (v.generators w) ∙ h) known) in
    rw kept (
      generator_notices-Mem (keys (r.visit d)) (record c { dirty_generator_uuids = [] }) u n visited
        e)

-- The store after a new agent has joined: each generator is dirty, and its list has the agent.
join_agent-generator :
    (id : Text) (spec : ProbingAgentSpec) (m : OrchestratorManager) (u : Text)
    (g : ProbingDirectiveGeneratorSpec) (s : ProbingDirectiveGeneratorStatus)
    → get id m.store.agent_specs ≡ none
    → get_generator u m.store ≡ ok (g, some s)
    → let c = (join_agent id spec m).0.store in
      (contains u c.dirty_generator_uuids ≡ true)
      × (get_generator u c ≡ ok (g, some (with_agent_specs (append_spec spec) s)))
unfolding join_agent add_or_update_agent get_generator
join_agent-generator id spec m u g s new known = (
  ground (arith, contains-mark_all u m.store.generator_status m.store.dirty_generator_uuids),
  ground (arith, get-map_values (with_agent_specs (append_spec spec)) u m.store.generator_status),
)

-- In a consistent store, after an agent joins under a new uuid, the next tick of the notification
-- loop tells every registered generator its status, with the agent's spec put at the end of its list
-- unless that has one of the same address.
pub notification_tick-join_agent :
    (id : Text) (spec : ProbingAgentSpec) (m : OrchestratorManager) (u : Text)
    (g : ProbingDirectiveGeneratorSpec) (s : ProbingDirectiveGeneratorStatus)
    (q r : Range (Unit {0}))
    → IsConsistent m.store
    → get id m.store.agent_specs ≡ none
    → get_generator u m.store ≡ ok (g, some s)
    → let (agents, generators, m') = notification_tick q r (join_agent id spec m).0 in
      Mem (g, some (with_agent_specs (append_spec spec) s)) generators
unfolding notification_tick notify_changed_agents get_dirty_agent_uuids get_generator
notification_tick-join_agent id spec m u g s q r v new known =
    let joined = (join_agent id spec m).0.store in
    let (dirty, now) = join_agent-generator id spec m u g s new known in
    let consistent : IsConsistent joined =
      unfold join_agent in
      add_or_update_agent-IsConsistent spec (agent_status_for id m) m.store v in
    let drained = get_dirty_agent_uuids-IsConsistent q joined consistent in
    notify_changed_generators-tells r (record joined { dirty_agent_uuids = [] }) u _ drained dirty
      now
