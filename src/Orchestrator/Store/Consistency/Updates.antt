-- ===== src/Orchestrator/Store/Consistency/Updates.antt =====
-- Well-formedness over the generators' methods, the updates of a status and the dirty sets of
-- internal/components/orchestrator/store.go.
use iprl_poc.Common.{Text, arith}
use iprl_poc.Common.GoMap.{Range, get, values, get-insert, get-delete}
use iprl_poc.Proto.{
  ProbingAgentSpec, ProbingAgentStatus, ProbingDirectiveGeneratorSpec,
  ProbingDirectiveGeneratorStatus,
}
use iprl_poc.Orchestrator.Store.{
  ComponentStore, add_or_update_generator, remove_generator, update_agent_status,
  update_generator_status, get_dirty_agent_uuids, get_dirty_generator_uuids,
}
use iprl_poc.Orchestrator.Store.Consistency.{IsConsistent}

pub add_or_update_generator-IsConsistent :
    (r : Range ProbingAgentSpec) (spec : ProbingDirectiveGeneratorSpec)
    (status : ProbingDirectiveGeneratorStatus) (c : ComponentStore)
    → IsConsistent c
    → IsConsistent (add_or_update_generator r spec status c)
unfolding add_or_update_generator
add_or_update_generator-IsConsistent r spec status c v = record {
  agents = λ u. ground (arith, v.agents u);
  generators = λ u. ground (
    arith,
    v.generators u,
    get-insert status.uuid u spec c.generator_specs,
    get-insert status.uuid u status c.generator_status,
    get-insert status.uuid u (record status { agent_specs = values (r.visit c.agent_specs) })
        c.generator_status,
  );
  dirty_agents = λ u h. ground (arith, v.dirty_agents u);
  dirty_generators = λ u h. ground (
    arith,
    v.dirty_generators u,
    get-insert status.uuid u tt c.dirty_generator_uuids,
    get-insert status.uuid u spec c.generator_specs,
  );
  agent_uuids = λ u s h. ground (arith, v.agent_uuids u s);
  generator_uuids = λ u s h. ground (
    arith,
    v.generator_uuids u s,
    get-insert status.uuid u status c.generator_status,
    get-insert status.uuid u (record status { agent_specs = values (r.visit c.agent_specs) })
        c.generator_status,
  );
}

pub remove_generator-IsConsistent :
    (uuid : Text) (c : ComponentStore) → IsConsistent c → IsConsistent (remove_generator uuid c).0
unfolding remove_generator
remove_generator-IsConsistent uuid c v = record {
  agents = λ u. ground (arith, v.agents u);
  generators = λ u. ground (
    arith,
    v.generators u,
    get-delete uuid u c.generator_specs,
    get-delete uuid u c.generator_status,
  );
  dirty_agents = λ u h. ground (arith, v.dirty_agents u);
  dirty_generators = λ u h. ground (
    arith,
    v.dirty_generators u,
    get-delete uuid u c.dirty_generator_uuids,
    get-delete uuid u c.generator_specs,
  );
  agent_uuids = λ u s h. ground (arith, v.agent_uuids u s);
  generator_uuids =
      λ u s h. ground (arith, v.generator_uuids u s, get-delete uuid u c.generator_status);
}

pub update_agent_status-IsConsistent :
    (uuid : Text) (status : ProbingAgentStatus) (c : ComponentStore)
    → IsConsistent c
    → IsConsistent (update_agent_status uuid status c).0
unfolding update_agent_status
update_agent_status-IsConsistent uuid status c v =
    let own : ProbingAgentStatus = record status { uuid = uuid } in
    record {
      agents = λ u. ground (arith, v.agents u, get-insert uuid u own c.agent_status);
      generators = λ u. ground (arith, v.generators u);
      dirty_agents =
          λ u h. ground (arith, v.dirty_agents u, get-insert uuid u tt c.dirty_agent_uuids);
      dirty_generators = λ u h. ground (arith, v.dirty_generators u);
      agent_uuids =
          λ u s h. ground (arith, v.agent_uuids u s, get-insert uuid u own c.agent_status);
      generator_uuids = λ u s h. ground (arith, v.generator_uuids u s);
    }

pub update_generator_status-IsConsistent :
    (uuid : Text) (status : ProbingDirectiveGeneratorStatus) (c : ComponentStore)
    → IsConsistent c
    → IsConsistent (update_generator_status uuid status c).0
unfolding update_generator_status
update_generator_status-IsConsistent uuid status c v =
    let own : ProbingDirectiveGeneratorStatus = record status { uuid = uuid } in
    record {
      agents = λ u. ground (arith, v.agents u);
      generators = λ u. ground (arith, v.generators u, get-insert uuid u own c.generator_status);
      dirty_agents = λ u h. ground (arith, v.dirty_agents u);
      dirty_generators =
          λ u h. ground (arith, v.dirty_generators u, get-insert uuid u tt c.dirty_generator_uuids);
      agent_uuids = λ u s h. ground (arith, v.agent_uuids u s);
      generator_uuids =
          λ u s h. ground (arith, v.generator_uuids u s, get-insert uuid u own c.generator_status);
    }

pub get_dirty_agent_uuids-IsConsistent :
    (r : Range (Unit {0})) (c : ComponentStore)
    → IsConsistent c
    → IsConsistent (get_dirty_agent_uuids r c).1
unfolding get_dirty_agent_uuids get
get_dirty_agent_uuids-IsConsistent r c v = record {
  agents = v.agents;
  generators = v.generators;
  dirty_agents = λ u h. ground arith;
  dirty_generators = v.dirty_generators;
  agent_uuids = v.agent_uuids;
  generator_uuids = v.generator_uuids;
}

pub get_dirty_generator_uuids-IsConsistent :
    (r : Range (Unit {0})) (c : ComponentStore)
    → IsConsistent c
    → IsConsistent (get_dirty_generator_uuids r c).1
unfolding get_dirty_generator_uuids get
get_dirty_generator_uuids-IsConsistent r c v = record {
  agents = v.agents;
  generators = v.generators;
  dirty_agents = v.dirty_agents;
  dirty_generators = λ u h. ground arith;
  agent_uuids = v.agent_uuids;
  generator_uuids = v.generator_uuids;
}
