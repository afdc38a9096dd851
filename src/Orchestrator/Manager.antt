-- ===== src/Orchestrator/Manager.antt =====
-- internal/components/orchestrator/manager.go: membership calls, the two queues, the fan-out to the
-- HTTP clients and the change notifications. `id` is what uuid.New returns; `r`, `q` are the orders
-- in which `range` visits a map. A wait is an outcome (`…_waits`), so a run is a list of turns.
pub mod Membership
pub mod Reachable
pub mod Rejoin
pub mod Notify
pub mod Announce
pub mod Deliver
pub mod Queues
pub mod Fanout
pub mod Clients
pub mod Dispatch
pub mod Http
pub mod Machine
pub mod Run
mod Meta
use iprl_poc.Common.{
  ℕ, List, [], ◌∷◌, Option, none, some, Bool, true, false, Text, Result, ok, err, map,
  if◌then◌else◌,
}
use iprl_poc.Common.GoMap.{Map, Range, get, insert, delete, values}
use iprl_poc.Common.Channel.{
  Channel, make, sent, send_blocks, send_panics, received, drained, recv_blocks, send, send?, recv,
  recv?, close,
}
use iprl_poc.Proto.{
  ProbingAgentSpec, ProbingAgentStatus, ProbingDirectiveGeneratorSpec,
  ProbingDirectiveGeneratorStatus, ProbingOrchestratorSpec, ProbingOrchestratorStatus,
  ProbingDirective, ForwardingInfoElement, JoinRequest, agent_request, generator_request, no_spec,
  JoinResponse, agent_response, generator_response,
}
use iprl_poc.Orchestrator.Store.{
  ComponentStore, OrchestratorError, component_not_found, invalid_component_type,
  new_component_store, add_or_update_agent, remove_agent, add_or_update_generator, remove_generator,
  get_agent, get_generator, list_agents, get_dirty_agent_uuids, get_dirty_generator_uuids,
}

-- A nil channel is `none`; `once_done` is the state of the sync.Once.
pub record OrchestratorManager : Type 0 where
  pub current_spec : ProbingOrchestratorSpec
  pub current_status : ProbingOrchestratorStatus
  pub store : ComponentStore
  pub directive_ch : Option (Channel ProbingDirective)
  pub element_ch : Option (Channel ForwardingInfoElement)
  pub clients : Map (Channel ForwardingInfoElement)
  pub once_done : Bool

unfoldable pub new_orchestrator_manager : ProbingOrchestratorSpec → OrchestratorManager
unfolding new_component_store make
new_orchestrator_manager spec = record {
  current_spec = spec;
  current_status = record { global_probing_rate_cap = spec.default_global_probing_rate_cap };
  store = new_component_store;
  directive_ch = some (make spec.directive_buffer_length);
  element_ch = some (make spec.element_buffer_length);
  clients = [];
  once_done = false;
}

unfoldable pub get_spec : OrchestratorManager → ProbingOrchestratorSpec
get_spec m = m.current_spec

unfoldable pub get_status : OrchestratorManager → ProbingOrchestratorStatus
get_status m = m.current_status

unfoldable pub set_spec : ProbingOrchestratorSpec → OrchestratorManager → OrchestratorManager
set_spec spec m = record m { current_spec = spec }

unfoldable pub set_status : ProbingOrchestratorStatus → OrchestratorManager → OrchestratorManager
set_status status m = record m { current_status = status }

-- The status that `joinAgent` makes.
unfoldable pub agent_status_for : Text → OrchestratorManager → ProbingAgentStatus
agent_status_for id m = record {
  uuid = id;
  probing_rate_cap = m.current_status.global_probing_rate_cap;
  tags = [];
}

unfoldable pub join_agent :
    Text → ProbingAgentSpec → OrchestratorManager → OrchestratorManager × JoinResponse
unfolding agent_status_for
join_agent id spec m =
    let status = agent_status_for id m in
    (record m { store = add_or_update_agent spec status m.store }, agent_response status)

-- The status that `joinGenerator` makes.
unfoldable pub generator_status_for :
    Range ProbingAgentSpec → Text → OrchestratorManager → ProbingDirectiveGeneratorStatus
generator_status_for q id m = record {
  uuid = id;
  probe_generation_rate_per_second_per_agent = m.current_spec.default_global_probing_rate_cap;
  agent_specs = list_agents q m.store;
  tags = [];
}

-- `AddOrUpdateGenerator` fills in the agents of a new generator's status through its pointer.
unfoldable pub filled_status :
    Range ProbingAgentSpec
    → ProbingDirectiveGeneratorStatus
    → ComponentStore
    → ProbingDirectiveGeneratorStatus
filled_status r status c = elim (get status.uuid c.generator_specs) [
  | some _ ↦ status
  | none ↦ record status { agent_specs = values (r.visit c.agent_specs) }
]

-- The response points at the status that the store keeps.
unfoldable pub join_generator :
    Range ProbingAgentSpec
    → Range ProbingAgentSpec
    → Text
    → ProbingDirectiveGeneratorSpec
    → OrchestratorManager
    → OrchestratorManager × JoinResponse
unfolding generator_status_for filled_status
join_generator q r id spec m =
    let status = generator_status_for q id m in
    (
      record m { store = add_or_update_generator r spec status m.store },
      generator_response (filled_status r status m.store),
    )

unfoldable pub join :
    Range ProbingAgentSpec
    → Range ProbingAgentSpec
    → Text
    → JoinRequest
    → OrchestratorManager
    → OrchestratorManager × Result OrchestratorError JoinResponse
unfolding join_agent join_generator
join q r id (agent_request spec) m = let (m', response) = join_agent id spec m in (m', ok response)
join q r id (generator_request spec) m =
    let (m', response) = join_generator q r id spec m in (m', ok response)
join q r id no_spec m = (m, err invalid_component_type)

-- An agent of that uuid is tried first, then a generator.
unfoldable pub leave : Text → OrchestratorManager → OrchestratorManager × Option OrchestratorError
leave uuid m =
    let (c, e) = remove_agent uuid m.store in
    let (c', e') = remove_generator uuid c in
    elim e [
      | none ↦ (record m { store = c }, none)
      | some _ ↦ elim e' [
        | none ↦ (record m { store = c' }, none)
        | some _ ↦ (m, some component_not_found)
      ]
    ]

-- What a goroutine of `notifyChangedAgents` is started with.
abbrev pub AgentNotice : Type 0
AgentNotice = ProbingAgentSpec × Option ProbingAgentStatus

abbrev pub GeneratorNotice : Type 0
GeneratorNotice = ProbingDirectiveGeneratorSpec × Option ProbingDirectiveGeneratorStatus

unfoldable pub agent_notices : List Text → ComponentStore → List AgentNotice
agent_notices [] c = []
agent_notices (u ∷ us) c = elim (get_agent u c) [
  | err _ ↦ agent_notices us c
  | ok notice ↦ notice ∷ agent_notices us c
]

unfoldable pub generator_notices : List Text → ComponentStore → List GeneratorNotice
generator_notices [] c = []
generator_notices (u ∷ us) c = elim (get_generator u c) [
  | err _ ↦ generator_notices us c
  | ok notice ↦ notice ∷ generator_notices us c
]

unfoldable pub notify_changed_agents :
    Range (Unit {0}) → ComponentStore → List AgentNotice × ComponentStore
unfolding agent_notices
notify_changed_agents r c =
    let (dirty, c') = get_dirty_agent_uuids r c in (agent_notices dirty c', c')

unfoldable pub notify_changed_generators :
    Range (Unit {0}) → ComponentStore → List GeneratorNotice × ComponentStore
unfolding generator_notices
notify_changed_generators r c =
    let (dirty, c') = get_dirty_generator_uuids r c in (generator_notices dirty c', c')

-- One tick of `runNotificationLoop`.
unfoldable pub notification_tick :
    Range (Unit {0})
    → Range (Unit {0})
    → OrchestratorManager
    → List AgentNotice × List GeneratorNotice × OrchestratorManager
unfolding notify_changed_agents notify_changed_generators
notification_tick r q m =
    let (agents, c) = notify_changed_agents r m.store in
    let (generators, c') = notify_changed_generators q c in
    (agents, generators, record m { store = c' })
