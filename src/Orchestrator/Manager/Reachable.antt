-- ===== src/Orchestrator/Manager/Reachable.antt =====
-- The states of the orchestrator: any interleaving of Join, Leave, the notification ticks and the
-- setters, from internal/components/orchestrator/manager.go.
use iprl_poc.Common.{some, none, ◌≡◌, inl, inr, Text, Option-cases, Mem, Perm}
use iprl_poc.Common.GoMap.{Range, get, values}
use iprl_poc.Proto.{
  ProbingAgentSpec, ProbingDirectiveGeneratorSpec, ProbingDirectiveGeneratorStatus,
  ProbingOrchestratorSpec, ProbingOrchestratorStatus,
}
use iprl_poc.Orchestrator.Store.{ComponentStore, remove_agent, remove_generator}
use iprl_poc.Orchestrator.Store.Consistency.{
  IsConsistent, new_component_store-IsConsistent, add_or_update_agent-IsConsistent,
  remove_agent-IsConsistent,
}
use iprl_poc.Orchestrator.Store.Consistency.Updates.{
  add_or_update_generator-IsConsistent, remove_generator-IsConsistent,
  get_dirty_agent_uuids-IsConsistent, get_dirty_generator_uuids-IsConsistent,
}
use iprl_poc.Orchestrator.Store.Directory.{
  InSync, addresses, new_component_store-InSync, add_or_update_agent-InSync, remove_agent-InSync,
  add_or_update_generator-InSync, remove_generator-InSync, get_dirty-InSync,
}
use iprl_poc.Orchestrator.Manager.{
  OrchestratorManager, new_orchestrator_manager, set_spec, set_status, join_agent, join_generator,
  leave, notification_tick, agent_status_for, generator_status_for,
}

-- One call of any kind.
pub data Step (m : OrchestratorManager) : OrchestratorManager → Type 0 where
  agent_joins : (id : Text) (spec : ProbingAgentSpec) → Step m (join_agent id spec m).0
  generator_joins :
      (q r : Range ProbingAgentSpec) (id : Text) (spec : ProbingDirectiveGeneratorSpec)
      → Step m (join_generator q r id spec m).0
  component_leaves : (uuid : Text) → Step m (leave uuid m).0
  tick : (r q : Range (Unit {0})) → Step m (notification_tick r q m).2
  spec_set : (spec : ProbingOrchestratorSpec) → Step m (set_spec spec m)
  status_set : (status : ProbingOrchestratorStatus) → Step m (set_status status m)

-- A joining component gets a fresh uuid, and an agent joins at an address of its own: it does not join
-- again before the orchestrator has its Leave.
abbrev pub IsFresh : {m n : OrchestratorManager} → Step m n → Type 0
IsFresh {m} (agent_joins id spec) =
    (get id m.store.agent_specs ≡ none)
    × (¬ Mem spec.grpc_address (addresses (values m.store.agent_specs)))
IsFresh {m} (generator_joins q r id spec) = get id m.store.generator_specs ≡ none
IsFresh (component_leaves uuid) = Unit
IsFresh (tick r q) = Unit
IsFresh (spec_set spec) = Unit
IsFresh (status_set status) = Unit

pub data Reach (spec : ProbingOrchestratorSpec) : OrchestratorManager → Type 0 where
  start : Reach spec (new_orchestrator_manager spec)
  next : {m n : OrchestratorManager} → Reach spec m → (s : Step m n) → IsFresh s → Reach spec n

-- The store after Leave is that of one removal or of two.
leave_store {ℓ} :
    (P : ComponentStore → Type ℓ) (uuid : Text) (m : OrchestratorManager)
    → P m.store
    → ((c : ComponentStore) → P c → P (remove_agent uuid c).0)
    → ((c : ComponentStore) → P c → P (remove_generator uuid c).0)
    → P (leave uuid m).0.store
unfolding leave
leave_store P uuid m h a g = elim (Option-cases (remove_agent uuid m.store).1) [
  | inl e ↦ rw (e, leave) (a m.store h)
  | inr (x, e) ↦ elim (Option-cases (remove_generator uuid (remove_agent uuid m.store).0).1) [
    | inl e' ↦ rw (e, e', leave) (g _ (a m.store h))
    | inr (y, e') ↦ rw (e, e', leave) h
  ]
]

pub Step-InSync :
    {m n : OrchestratorManager} (s : Step m n) → IsFresh s → InSync m.store → InSync n.store
unfolding join_agent join_generator notification_tick set_spec set_status
Step-InSync {m} (agent_joins id spec) (new, fresh) v =
    add_or_update_agent-InSync spec (agent_status_for id m) m.store new fresh v
Step-InSync {m} (generator_joins q r id spec) new v =
    add_or_update_generator-InSync r spec (generator_status_for q id m) m.store new v
Step-InSync {m} (component_leaves uuid) f v =
    leave_store InSync uuid m v (remove_agent-InSync uuid) (remove_generator-InSync uuid)
Step-InSync {m} (tick r q) f v = get_dirty-InSync r q m.store v
Step-InSync (spec_set spec) f v = v
Step-InSync (status_set status) f v = v

pub Step-IsConsistent :
    {m n : OrchestratorManager} → Step m n → IsConsistent m.store → IsConsistent n.store
unfolding join_agent join_generator notification_tick set_spec set_status
Step-IsConsistent {m} (agent_joins id spec) v =
    add_or_update_agent-IsConsistent spec (agent_status_for id m) m.store v
Step-IsConsistent {m} (generator_joins q r id spec) v =
    add_or_update_generator-IsConsistent r spec (generator_status_for q id m) m.store v
Step-IsConsistent {m} (component_leaves uuid) v =
    leave_store IsConsistent uuid m v (remove_agent-IsConsistent uuid)
      (remove_generator-IsConsistent uuid)
Step-IsConsistent {m} (tick r q) v =
    get_dirty_generator_uuids-IsConsistent q _ (get_dirty_agent_uuids-IsConsistent r m.store v)
Step-IsConsistent (spec_set spec) v = v
Step-IsConsistent (status_set status) v = v

pub Reach-InSync :
    {spec : ProbingOrchestratorSpec} {m : OrchestratorManager} → Reach spec m → InSync m.store
unfolding new_orchestrator_manager
Reach-InSync start = new_component_store-InSync
Reach-InSync (next h s f) = Step-InSync s f (Reach-InSync h)

-- Every state that the orchestrator reaches has a consistent store.
pub Reach-IsConsistent :
    {spec : ProbingOrchestratorSpec} {m : OrchestratorManager} → Reach spec m → IsConsistent m.store
unfolding new_orchestrator_manager
Reach-IsConsistent start = new_component_store-IsConsistent
Reach-IsConsistent (next h s f) = Step-IsConsistent s (Reach-IsConsistent h)

-- In every state that is reached by joins with fresh uuids, of agents at addresses that no registered
-- agent has, by leaves, setters and notification ticks, each generator's list of agents is, up to order, the list of the agents registered.
pub Reach-agent_specs :
    {spec : ProbingOrchestratorSpec} {m : OrchestratorManager} (u : Text)
    (s : ProbingDirectiveGeneratorStatus)
    → Reach spec m
    → get u m.store.generator_status ≡ some s
    → Perm s.agent_specs (values m.store.agent_specs)
Reach-agent_specs u s h e = (Reach-InSync h).lists u s e
