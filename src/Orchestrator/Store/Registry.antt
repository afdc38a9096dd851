-- ===== src/Orchestrator/Store/Registry.antt =====
-- What the store of internal/components/orchestrator/store.go promises its callers, as functions of
-- the uuid: who is registered with which spec and status, and who is to be notified. The lists of
-- agents inside the generators' statuses are left out here.
pub mod Refinement
use iprl_poc.Common.{
  List, [], ◌∷◌, Option, some, none, Bool, true, false, ◌||◌, ◌≡◌, refl, ite, inl, inr, Text,
  text_eq, arith, Option-cases, Result, ok, err, map, if◌then◌else◌, ap, ◌∙◌,
}
use mathlib.Core.Path.{fun_ext}
use mathlib.Core.Option
use iprl_poc.Common.GoMap.{
  Map, Range, get, insert, delete, keys, values, contains, get-insert, get-delete, get-map_values,
  contains-insert, contains-delete, contains-map_values, map_values,
}
use iprl_poc.Proto.{
  ProbingAgentSpec, ProbingAgentStatus, ProbingDirectiveGeneratorSpec,
  ProbingDirectiveGeneratorStatus,
}
use iprl_poc.Orchestrator.Store.{
  ComponentStore, new_component_store, replace_spec, append_spec, remove_spec, with_agent_specs,
  mark_all, add_or_update_agent, remove_agent, add_or_update_generator, remove_generator,
  update_agent_status, update_generator_status, get_dirty_agent_uuids, get_dirty_generator_uuids,
  get_agent, get_generator,
}
use iprl_poc.Orchestrator.Store.Consistency.{contains-mark_all}
use iprl_poc.Orchestrator.Store.History.{
  Command, add_agent, drop_agent, add_generator, drop_generator, set_agent_status,
  set_generator_status, drain_agents, drain_generators, step, run,
}

abbrev pub AgentEntry : Type 0
AgentEntry = Option (ProbingAgentSpec × Option ProbingAgentStatus)

abbrev pub GeneratorEntry : Type 0
GeneratorEntry = Option (ProbingDirectiveGeneratorSpec × Option ProbingDirectiveGeneratorStatus)

pub record Registry : Type 0 where
  pub agents : Text → AgentEntry
  pub generators : Text → GeneratorEntry
  pub told_agents : Text → Bool
  pub told_generators : Text → Bool

unfoldable pub new_registry : Registry
new_registry = record {
  agents = λ u. none;
  generators = λ u. none;
  told_agents = λ u. false;
  told_generators = λ u. false;
}

abbrev pub is_there {ℓ} : {A : Type ℓ} → Option A → Bool
is_there none = false
is_there (some a) = true

-- A function changed at one uuid.
abbrev pub update {ℓ} : {A : Type ℓ} → Text → A → (Text → A) → Text → A
update u a f v = ite (text_eq u v) a (f v)

abbrev pub forget_list : ProbingDirectiveGeneratorStatus → ProbingDirectiveGeneratorStatus
forget_list s = record s { agent_specs = [] }

-- The registry after a call. An agent that joins or leaves has every generator notified, an update
-- only the component itself; a call for a uuid that is not registered changes nothing.
unfoldable pub replay : Registry → Command → Registry
replay r (add_agent spec status) = record r {
  agents = update status.uuid (some (spec, some status)) r.agents;
  told_agents = λ v.
      if is_there (r.agents status.uuid)
      then update status.uuid true r.told_agents v
      else r.told_agents v;
  told_generators = λ v.
      if is_there (r.agents status.uuid)
      then r.told_generators v
      else r.told_generators v || is_there (r.generators v);
}
replay r (drop_agent u) = elim (r.agents u) [
  | none ↦ r
  | some _ ↦ record r {
    agents = update u none r.agents;
    told_agents = update u false r.told_agents;
    told_generators = λ v. r.told_generators v || is_there (r.generators v);
  }
]
replay r (add_generator _ spec status) = record r {
  generators = update status.uuid (some (spec, some (forget_list status))) r.generators;
  told_generators = λ v.
      if is_there (r.generators status.uuid)
      then update status.uuid true r.told_generators v
      else r.told_generators v;
}
replay r (drop_generator u) = elim (r.generators u) [
  | none ↦ r
  | some _ ↦ record r {
    generators = update u none r.generators;
    told_generators = update u false r.told_generators;
  }
]
replay r (set_agent_status u status) = elim (r.agents u) [
  | none ↦ r
  | some entry ↦ record r {
    agents = update u (some (entry.0, some (record status { uuid = u }))) r.agents;
    told_agents = update u true r.told_agents;
  }
]
replay r (set_generator_status u status) = elim (r.generators u) [
  | none ↦ r
  | some entry ↦ record r {
    generators =
        update u (some (entry.0, some (forget_list (record status { uuid = u })))) r.generators;
    told_generators = update u true r.told_generators;
  }
]
replay r (drain_agents _) = record r { told_agents = λ v. false }
replay r (drain_generators _) = record r { told_generators = λ v. false }

unfoldable pub replay_all : Registry → List Command → Registry
replay_all r [] = r
replay_all r (x ∷ xs) = replay_all (replay r x) xs

-- What the store's lookups and dirty sets show.
abbrev pub agent_entry : ComponentStore → Text → AgentEntry
agent_entry c u = elim (get_agent u c) [ ok e ↦ some e | err _ ↦ none ]

abbrev pub generator_entry : ComponentStore → Text → GeneratorEntry
generator_entry c u = elim (get_generator u c) [
  | ok e ↦ some (e.0, Option.map forget_list e.1)
  | err _ ↦ none
]

unfoldable pub view : ComponentStore → Registry
view c = record {
  agents = agent_entry c;
  generators = generator_entry c;
  told_agents = λ u. contains u c.dirty_agent_uuids;
  told_generators = λ u. contains u c.dirty_generator_uuids;
}
