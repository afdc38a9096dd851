-- ===== src/Samples/Registry.antt =====
-- Samples of the registry and its notifications, internal/components/orchestrator.
use iprl_poc.Common.{
  List, [], ◌∷◌, none, some, false, ◌≡◌, refl, Text, codes, text_eq, Perm, map, All, ok, ite, Nodup,
  arith, not-mem-nil,
}
use iprl_poc.Common.GoMap.{get, keys, values, insert, map_values}
use iprl_poc.Proto.{ProbingAgentSpec, ProbingDirectiveGeneratorStatus, agent_response}
use iprl_poc.Orchestrator.Store.{
  new_component_store, get_agent, has_address, list_agents, add_or_update_agent,
  add_or_update_generator, append_spec, remove_spec, replace_spec, announce_new_agent,
}
use iprl_poc.Orchestrator.Store.Consistency.{IsConsistent}
use iprl_poc.Orchestrator.Store.History.{
  Command, add_agent, add_generator, drop_agent, run, history-IsConsistent,
}
use iprl_poc.Orchestrator.Manager.{
  new_orchestrator_manager, join_agent, join_generator, leave, agent_status_for,
  generator_status_for, notify_changed_agents, notify_changed_generators,
}
use iprl_poc.Orchestrator.Manager.Membership.{join_agent-get_agent}
use iprl_poc.Orchestrator.Manager.Reachable.{
  Reach, start, next, agent_joins, generator_joins, Reach-agent_specs, Reach-InSync,
  Reach-IsConsistent,
}
use iprl_poc.Orchestrator.Manager.Notify.{
  noticed_agent, noticed_generator, IsCurrentAgent, IsCurrentGenerator, notify_changed_agents-exact,
  notify_changed_generators-exact,
}
use iprl_poc.Orchestrator.Manager.Rejoin.{rejoin_then_leave}
use iprl_poc.Orchestrator.Store.Registry.{view, new_registry, replay_all}
use iprl_poc.Orchestrator.Store.Registry.Refinement.{run-replay_all}
use iprl_poc.Orchestrator.Store.Directory.{addresses}
use iprl_poc.Orchestrator.Store.Loops.{without, exchanged, break_loops-whole_list}
use iprl_poc.Samples.Data.{
  Nodup-two, agent_at, in_order, first_agent, generator_spec, generator_status, orchestrator_spec,
  empty_cluster, with_generator, small_cluster,
}

pub with_generator_reached : Reach orchestrator_spec with_generator
unfolding new_orchestrator_manager new_component_store get
with_generator_reached =
    next start (generator_joins in_order in_order (codes "g") generator_spec) refl

small_cluster_reached : Reach orchestrator_spec small_cluster
unfolding new_orchestrator_manager new_component_store get join_generator add_or_update_generator
small_cluster_reached =
    next with_generator_reached (agent_joins (codes "a") first_agent) (refl, λ m. not-mem-nil m)

small_cluster_status :
    get (codes "g") small_cluster.store.generator_status
    ≡ some (generator_status (first_agent ∷ []))
unfolding get join_agent join_generator add_or_update_generator add_or_update_agent
    new_orchestrator_manager new_component_store insert announce_new_agent append_spec text_eq
    generator_status_for list_agents has_address map_values
small_cluster_status = refl

Reach-agent_specs_example : Perm (first_agent ∷ []) (values small_cluster.store.agent_specs)
Reach-agent_specs_example =
    Reach-agent_specs (codes "g") (generator_status (first_agent ∷ [])) small_cluster_reached
      small_cluster_status

abbrev calls : List Command
calls =
    add_generator in_order generator_spec (generator_status [])
    ∷ add_agent first_agent (agent_status_for (codes "a") empty_cluster)
    ∷ drop_agent (codes "a")
    ∷ []

history-IsConsistent_example : IsConsistent (run new_component_store calls)
history-IsConsistent_example = history-IsConsistent calls

notify_changed_generators-exact_example :
    let (notices, c') = notify_changed_generators in_order small_cluster.store in
    (map noticed_generator notices ≡ map some (keys small_cluster.store.dirty_generator_uuids))
    × All (IsCurrentGenerator small_cluster.store) notices
    × ((notify_changed_generators in_order c').0 ≡ [])
notify_changed_generators-exact_example =
    notify_changed_generators-exact in_order in_order small_cluster.store
      (Reach-IsConsistent small_cluster_reached)

notify_changed_agents-exact_example :
    let (notices, c') = notify_changed_agents in_order small_cluster.store in
    (map noticed_agent notices ≡ map some (keys small_cluster.store.dirty_agent_uuids))
    × All (IsCurrentAgent small_cluster.store) notices
    × ((notify_changed_agents in_order c').0 ≡ [])
notify_changed_agents-exact_example =
    notify_changed_agents-exact in_order in_order small_cluster.store
      (Reach-IsConsistent small_cluster_reached)

join_agent-get_agent_example :
    let status = agent_status_for (codes "a") with_generator in
    ((join_agent (codes "a") first_agent with_generator).1 ≡ agent_response status)
    × (status.probing_rate_cap ≡ with_generator.current_status.global_probing_rate_cap)
    × (get_agent (codes "b") small_cluster.store
        ≡ ite
            (text_eq (codes "a") (codes "b"))
            (ok (first_agent, some status))
            (get_agent (codes "b") with_generator.store))
join_agent-get_agent_example =
    join_agent-get_agent (codes "a") (codes "b") first_agent with_generator

first_agent_known : get (codes "a") small_cluster.store.agent_specs ≡ some first_agent
unfolding get insert join_agent join_generator add_or_update_generator add_or_update_agent
    new_orchestrator_manager new_component_store announce_new_agent text_eq generator_status_for
first_agent_known = refl

no_second_uuid : get (codes "b") small_cluster.store.agent_specs ≡ none
unfolding get insert join_agent join_generator add_or_update_generator add_or_update_agent
    new_orchestrator_manager new_component_store announce_new_agent text_eq generator_status_for
no_second_uuid = refl

rejoin_then_leave_example :
    let joined = (join_agent (codes "b") first_agent small_cluster).0 in
    let after = (leave (codes "b") joined).0 in
    (get (codes "a") after.store.agent_specs ≡ some first_agent)
    × ((u : Text) (s : ProbingDirectiveGeneratorStatus)
        → get u after.store.generator_status ≡ some s
        → has_address first_agent.grpc_address s.agent_specs ≡ false)
rejoin_then_leave_example =
    rejoin_then_leave (codes "a") (codes "b") first_agent small_cluster
      (Reach-InSync small_cluster_reached) first_agent_known no_second_uuid

run-replay_all_example : view (run new_component_store calls) ≡ replay_all new_registry calls
run-replay_all_example = run-replay_all calls

abbrev second_agent : ProbingAgentSpec
second_agent = agent_at (codes "agent:50052")

distinct_addresses : Nodup (addresses (first_agent ∷ second_agent ∷ []))
distinct_addresses = Nodup-two (codes "agent:50051") (codes "agent:50052") (λ e. ground arith)

break_loops-whole_list_example :
    let agents = first_agent ∷ second_agent ∷ [] in
    (remove_spec first_agent.grpc_address agents ≡ without first_agent.grpc_address agents)
    × (replace_spec first_agent agents ≡ map (exchanged first_agent) agents)
    × (addresses (replace_spec first_agent agents) ≡ addresses agents)
break_loops-whole_list_example =
    break_loops-whole_list first_agent (first_agent ∷ second_agent ∷ []) distinct_addresses
