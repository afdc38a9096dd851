-- ===== src/Orchestrator/Manager/Membership.antt =====
-- What Join and Leave of internal/components/orchestrator/manager.go do to the registry.
use iprl_poc.Common.{
  some, none, true, false, ◌||◌, ◌≡◌, refl, ite, Text, text_eq, arith, ok, if◌then◌else◌,
}
use iprl_poc.Common.GoMap.{Range, values, contains, get-insert, get-delete}
use iprl_poc.Proto.{
  ProbingAgentSpec, ProbingDirectiveGeneratorSpec, agent_response, generator_response,
}
use iprl_poc.Orchestrator.Store.{
  component_not_found, add_or_update_agent, remove_agent, add_or_update_generator, remove_generator,
  get_agent, get_generator,
}
use iprl_poc.Orchestrator.Manager.{
  OrchestratorManager, agent_status_for, join_agent, generator_status_for, filled_status,
  join_generator, leave,
}

-- After an agent's Join, a lookup of its uuid gives its spec and the very status of the response,
-- with the orchestrator's current rate cap, and a lookup of any other uuid gives what it gave.
pub join_agent-get_agent :
    (id u : Text) (spec : ProbingAgentSpec) (m : OrchestratorManager)
    → ((join_agent id spec m).1 ≡ agent_response (agent_status_for id m))
      × ((agent_status_for id m).probing_rate_cap ≡ m.current_status.global_probing_rate_cap)
      × (get_agent u (join_agent id spec m).0.store
          ≡ ite (text_eq id u) (ok (spec, some (agent_status_for id m))) (get_agent u m.store))
unfolding join_agent add_or_update_agent get_agent
join_agent-get_agent id u spec m = (
  refl,
  refl,
  ground (
    arith,
    get-insert id u spec m.store.agent_specs,
    get-insert id u (agent_status_for id m) m.store.agent_status,
  ),
)

-- After a generator's Join, a lookup of its uuid gives its spec and the status of the response, whose
-- rate is the default cap, and a lookup of any other uuid gives what it gave.
pub join_generator-get_generator :
    (q r : Range ProbingAgentSpec) (id u : Text) (spec : ProbingDirectiveGeneratorSpec)
    (m : OrchestratorManager)
    → let status = filled_status r (generator_status_for q id m) m.store in
      ((join_generator q r id spec m).1 ≡ generator_response status)
      × (status.probe_generation_rate_per_second_per_agent
          ≡ m.current_spec.default_global_probing_rate_cap)
      × (get_generator u (join_generator q r id spec m).0.store
          ≡ ite (text_eq id u) (ok (spec, some status)) (get_generator u m.store))
unfolding join_generator add_or_update_generator get_generator
join_generator-get_generator q r id u spec m =
    let status = generator_status_for q id m in
    (
      refl,
      ground arith,
      ground (
        arith,
        get-insert id u spec m.store.generator_specs,
        get-insert id u status m.store.generator_status,
        get-insert id u (record status { agent_specs = values (r.visit m.store.agent_specs) })
            m.store.generator_status,
      ),
    )

-- Leave succeeds exactly for a uuid that is registered; otherwise it says so and changes nothing.
pub leave_outcome :
    (uuid : Text) (m : OrchestratorManager)
    → let known = contains uuid m.store.agent_specs || contains uuid m.store.generator_specs in
      ((leave uuid m).1 ≡ (if known then none else some component_not_found))
      × ((if known then m else (leave uuid m).0) ≡ m)
unfolding leave remove_agent remove_generator
leave_outcome uuid m = (ground arith, ground arith)

-- A uuid of one component can leave once: a second Leave fails and changes nothing.
pub leave_twice :
    (uuid : Text) (m : OrchestratorManager)
    → (contains uuid m.store.agent_specs ≡ true → contains uuid m.store.generator_specs ≡ false)
    → leave uuid (leave uuid m).0 ≡ ((leave uuid m).0, some component_not_found)
unfolding leave remove_agent remove_generator
leave_twice uuid m own =
    ground (
      arith,
      get-delete uuid uuid m.store.agent_specs,
      get-delete uuid uuid m.store.generator_specs,
    )
