-- ===== src/Commands/Platform/Joins.antt =====
-- A first agent and then a generator join the orchestrator of
-- internal/components/orchestrator/manager.go: the status that the generator is told.
use iprl_poc.Common.{[], ◌∷◌, some, ◌≡◌, refl, Text, Result, ok, length, Mem}
use iprl_poc.Common.GoMap.{Range, get, insert}
use iprl_poc.Common.GoMap.Entries.{visit-singleton}
use iprl_poc.Proto.{
  ProbingAgentSpec, ProbingDirectiveGeneratorSpec, ProbingDirectiveGeneratorStatus, JoinResponse,
  ProbingOrchestratorSpec,
}
use iprl_poc.Generator.Manager.{GeneratorManager, new_generator_manager}
use iprl_poc.Generator.Manager
use iprl_poc.Orchestrator.Store.{
  OrchestratorError, new_component_store, add_or_update_agent, announce_new_agent,
}
use iprl_poc.Orchestrator.Manager.{
  new_orchestrator_manager, join_agent, join_generator, filled_status, generator_status_for,
}

-- The reply of the orchestrator reaches a generator that joins.
abbrev pub told : JoinResponse → GeneratorManager → GeneratorManager
told response m =
    let reply : Result OrchestratorError JoinResponse = ok response in
    (Manager.join_cluster reply m).0

-- The first agent joins, and then a generator: what it is told.
abbrev pub first_status :
    Range ProbingAgentSpec
    → Range ProbingAgentSpec
    → Text
    → Text
    → ProbingAgentSpec
    → ProbingOrchestratorSpec
    → ProbingDirectiveGeneratorStatus
first_status q r agent_id generator_id a o =
    let m = (join_agent agent_id a (new_orchestrator_manager o)).0 in
    filled_status r (generator_status_for q generator_id m) m.store

module _ (q r : Range ProbingAgentSpec) (agent_id generator_id : Text) (a : ProbingAgentSpec)
    (o : ProbingOrchestratorSpec) where
  pub first_join :
      (g : ProbingDirectiveGeneratorSpec)
      → let m = (join_agent agent_id a (new_orchestrator_manager o)).0 in
        (told (join_generator q r generator_id g m).1 (new_generator_manager g)).current_status
        ≡ some (first_status q r agent_id generator_id a o)
  unfolding join_generator Manager.join_cluster
  first_join g = refl

  pub first_status-agent_specs :
      let known = (first_status q r agent_id generator_id a o).agent_specs in
      (length known ≡ 1) × ((b : ProbingAgentSpec) → Mem b known → Mem b (a ∷ []))
  unfolding join_agent new_orchestrator_manager filled_status generator_status_for get insert
      add_or_update_agent announce_new_agent new_component_store
  first_status-agent_specs = visit-singleton r agent_id a

  pub first_status-rate :
      (first_status q r agent_id generator_id a o).probe_generation_rate_per_second_per_agent
      ≡ o.default_global_probing_rate_cap
  unfolding join_agent new_orchestrator_manager filled_status generator_status_for get insert
      add_or_update_agent announce_new_agent new_component_store
  first_status-rate = refl
