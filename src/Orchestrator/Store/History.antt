-- ===== src/Orchestrator/Store/History.antt =====
-- Sequences of calls on the store: what every one of them keeps.
use iprl_poc.Common.{List, [], ◌∷◌, Text}
use iprl_poc.Common.GoMap.{Range}
use iprl_poc.Proto.{
  ProbingAgentSpec, ProbingAgentStatus, ProbingDirectiveGeneratorSpec,
  ProbingDirectiveGeneratorStatus,
}
use iprl_poc.Orchestrator.Store.{
  ComponentStore, new_component_store, add_or_update_agent, remove_agent, add_or_update_generator,
  remove_generator, update_agent_status, update_generator_status, get_dirty_agent_uuids,
  get_dirty_generator_uuids,
}
use iprl_poc.Orchestrator.Store.Consistency.{
  IsConsistent, new_component_store-IsConsistent, add_or_update_agent-IsConsistent,
  remove_agent-IsConsistent,
}
use iprl_poc.Orchestrator.Store.Consistency.Updates.{
  add_or_update_generator-IsConsistent, remove_generator-IsConsistent,
  update_agent_status-IsConsistent, update_generator_status-IsConsistent,
  get_dirty_agent_uuids-IsConsistent, get_dirty_generator_uuids-IsConsistent,
}

-- A call of a method that writes.
pub data Command : Type 0 where
  add_agent : ProbingAgentSpec → ProbingAgentStatus → Command
  drop_agent : Text → Command
  add_generator :
      Range ProbingAgentSpec
      → ProbingDirectiveGeneratorSpec
      → ProbingDirectiveGeneratorStatus
      → Command
  drop_generator : Text → Command
  set_agent_status : Text → ProbingAgentStatus → Command
  set_generator_status : Text → ProbingDirectiveGeneratorStatus → Command
  drain_agents : Range (Unit {0}) → Command
  drain_generators : Range (Unit {0}) → Command

unfoldable pub step : ComponentStore → Command → ComponentStore
step c (add_agent spec status) = add_or_update_agent spec status c
step c (drop_agent u) = (remove_agent u c).0
step c (add_generator r spec status) = add_or_update_generator r spec status c
step c (drop_generator u) = (remove_generator u c).0
step c (set_agent_status u status) = (update_agent_status u status c).0
step c (set_generator_status u status) = (update_generator_status u status c).0
step c (drain_agents r) = (get_dirty_agent_uuids r c).1
step c (drain_generators r) = (get_dirty_generator_uuids r c).1

unfoldable pub run : ComponentStore → List Command → ComponentStore
run c [] = c
run c (x ∷ xs) = run (step c x) xs

pub step-IsConsistent :
    (c : ComponentStore) (x : Command) → IsConsistent c → IsConsistent (step c x)
unfolding step
step-IsConsistent c (add_agent spec status) v = add_or_update_agent-IsConsistent spec status c v
step-IsConsistent c (drop_agent u) v = remove_agent-IsConsistent u c v
step-IsConsistent c (add_generator r spec status) v =
    add_or_update_generator-IsConsistent r spec status c v
step-IsConsistent c (drop_generator u) v = remove_generator-IsConsistent u c v
step-IsConsistent c (set_agent_status u status) v = update_agent_status-IsConsistent u status c v
step-IsConsistent c (set_generator_status u status) v =
    update_generator_status-IsConsistent u status c v
step-IsConsistent c (drain_agents r) v = get_dirty_agent_uuids-IsConsistent r c v
step-IsConsistent c (drain_generators r) v = get_dirty_generator_uuids-IsConsistent r c v

run-IsConsistent :
    (c : ComponentStore) (xs : List Command) → IsConsistent c → IsConsistent (run c xs)
unfolding run
run-IsConsistent c [] v = v
run-IsConsistent c (x ∷ xs) v = run-IsConsistent (step c x) xs (step-IsConsistent c x v)

-- After any sequence of calls on a new store, an agent or a generator has a spec exactly when it has
-- a status, every dirty uuid is registered, and each status carries the uuid it is stored under.
pub history-IsConsistent : (xs : List Command) → IsConsistent (run new_component_store xs)
history-IsConsistent xs = run-IsConsistent _ xs new_component_store-IsConsistent
