-- ===== src/Orchestrator/Store/Consistency.antt =====
-- The well-formedness of the store of internal/components/orchestrator/store.go, and its agents'
-- methods.
pub mod Updates
use iprl_poc.Common.{
  List, [], ◌∷◌, some, true, ◌||◌, ◌≡◌, refl, inl, inr, Text, Option-cases, arith,
}
use iprl_poc.Common.GoMap.{
  Map, Range, get, insert, keys, values, contains, get-insert, get-delete, get-map_values,
  map_values,
}
use iprl_poc.Proto.{
  ProbingAgentSpec, ProbingAgentStatus, ProbingDirectiveGeneratorSpec,
  ProbingDirectiveGeneratorStatus,
}
use iprl_poc.Orchestrator.Store.{
  ComponentStore, TextSet, new_component_store, replace_spec, append_spec, remove_spec,
  with_agent_specs, mark_all, add_or_update_agent, remove_agent, add_or_update_generator,
  remove_generator, update_agent_status, update_generator_status, get_dirty_agent_uuids,
  get_dirty_generator_uuids,
}

-- Specs and statuses have the same keys, a dirty uuid is registered, and a status carries its key.
pub record IsConsistent (c : ComponentStore) : Type 0 where
  pub agents : (u : Text) → contains u c.agent_specs ≡ contains u c.agent_status
  pub generators : (u : Text) → contains u c.generator_specs ≡ contains u c.generator_status
  pub dirty_agents :
      (u : Text) → contains u c.dirty_agent_uuids ≡ true → contains u c.agent_specs ≡ true
  pub dirty_generators :
      (u : Text) → contains u c.dirty_generator_uuids ≡ true → contains u c.generator_specs ≡ true
  pub agent_uuids : (u : Text) (s : ProbingAgentStatus) → get u c.agent_status ≡ some s → s.uuid ≡ u
  pub generator_uuids :
      (u : Text) (s : ProbingDirectiveGeneratorStatus)
      → get u c.generator_status ≡ some s
      → s.uuid ≡ u

pub contains-mark_all :
    {V : Type 0} (u : Text) (m : Map V) (d : TextSet)
    → contains u (mark_all (keys m) d) ≡ (contains u d || contains u m)
unfolding mark_all get
contains-mark_all u [] d = ground arith
contains-mark_all u ((k, v) ∷ m) d =
    ground (arith, contains-mark_all u m (insert k tt d), get-insert k u tt d)

pub new_component_store-IsConsistent : IsConsistent new_component_store
unfolding new_component_store get
new_component_store-IsConsistent = record {
  agents = λ u. refl;
  generators = λ u. refl;
  dirty_agents = λ u h. ground arith;
  dirty_generators = λ u h. ground arith;
  agent_uuids = λ u s h. ground arith;
  generator_uuids = λ u s h. ground arith;
}

-- A write to the agent lists leaves every uuid as it was.
uuid-map_values :
    (f : List ProbingAgentSpec → List ProbingAgentSpec) (m : Map ProbingDirectiveGeneratorStatus)
    → ((u : Text) (s : ProbingDirectiveGeneratorStatus) → get u m ≡ some s → s.uuid ≡ u)
    → (u : Text) (s : ProbingDirectiveGeneratorStatus)
    → get u (map_values (with_agent_specs f) m) ≡ some s
    → s.uuid ≡ u
uuid-map_values f m v u s h = elim (Option-cases (get u m)) [
  | inl e ↦ ground (arith, get-map_values (with_agent_specs f) u m)
  | inr (t, e) ↦ ground (arith, get-map_values (with_agent_specs f) u m, v u t e)
]

pub add_or_update_agent-IsConsistent :
    (spec : ProbingAgentSpec) (status : ProbingAgentStatus) (c : ComponentStore)
    → IsConsistent c
    → IsConsistent (add_or_update_agent spec status c)
unfolding add_or_update_agent
add_or_update_agent-IsConsistent spec status c v = record {
  agents = λ u. ground (
    arith,
    v.agents u,
    get-insert status.uuid u spec c.agent_specs,
    get-insert status.uuid u status c.agent_status,
  );
  generators = λ u. ground (
    arith,
    v.generators u,
    get-map_values (with_agent_specs (replace_spec spec)) u c.generator_status,
    get-map_values (with_agent_specs (append_spec spec)) u c.generator_status,
  );
  dirty_agents = λ u h. ground (
    arith,
    v.dirty_agents u,
    get-insert status.uuid u tt c.dirty_agent_uuids,
    get-insert status.uuid u spec c.agent_specs,
  );
  dirty_generators = λ u h. ground (
    arith,
    v.dirty_generators u,
    v.generators u,
    contains-mark_all u c.generator_status c.dirty_generator_uuids,
  );
  agent_uuids =
      λ u s h. ground (arith, v.agent_uuids u s, get-insert status.uuid u status c.agent_status);
  generator_uuids = λ u s h. ground (
    arith,
    v.generator_uuids u s,
    uuid-map_values (replace_spec spec) c.generator_status v.generator_uuids u s,
    uuid-map_values (append_spec spec) c.generator_status v.generator_uuids u s,
  );
}

pub remove_agent-IsConsistent :
    (uuid : Text) (c : ComponentStore) → IsConsistent c → IsConsistent (remove_agent uuid c).0
unfolding remove_agent
remove_agent-IsConsistent uuid c v = elim (Option-cases (get uuid c.agent_specs)) [
  | inl e ↦ rw (e, remove_agent) v
  | inr (spec, e) ↦
      rw (e, remove_agent)
        (record {
          agents = λ u. ground (
            arith,
            v.agents u,
            get-delete uuid u c.agent_specs,
            get-delete uuid u c.agent_status,
          );
          generators = λ u. ground (
            arith,
            v.generators u,
            get-map_values (with_agent_specs (remove_spec spec.grpc_address)) u c.generator_status,
          );
          dirty_agents = λ u h. ground (
            arith,
            v.dirty_agents u,
            get-delete uuid u c.agent_specs,
            get-delete uuid u c.dirty_agent_uuids,
          );
          dirty_generators = λ u h. ground (
            arith,
            v.dirty_generators u,
            v.generators u,
            contains-mark_all u c.generator_status c.dirty_generator_uuids,
          );
          agent_uuids =
              λ u s h. ground (arith, v.agent_uuids u s, get-delete uuid u c.agent_status);
          generator_uuids =
              uuid-map_values (remove_spec spec.grpc_address) c.generator_status v.generator_uuids;
        })
]
