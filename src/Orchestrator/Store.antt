-- ===== src/Orchestrator/Store.antt =====
-- internal/components/orchestrator/store.go: the registry of agents and generators. A method that
-- changes the store returns the new store, with the error where it can fail (`none` is nil); the
-- mutex makes each call one step. A status is held under one key only, so a map owns its statuses
-- and an in-place write to one is an update of that entry.
pub mod Consistency
pub mod History
pub mod Directory
pub mod Registry
pub mod Loops
use iprl_poc.Common.{
  ℕ, List, [], ◌∷◌, ◌++◌, Option, none, some, Bool, true, false, not, ◌||◌, ite, Text, text_eq,
  length, ltb, Result, ok, err, map, if◌then◌else◌,
}
use iprl_poc.Common.GoMap.{Map, Range, get, insert, delete, keys, values, map_values, filter_keys}
use iprl_poc.Proto.{
  ProbingAgentSpec, ProbingAgentStatus, ProbingDirectiveGeneratorSpec,
  ProbingDirectiveGeneratorStatus,
}

-- The `var (Err… = errors.New …)` block of manager.go.
pub data OrchestratorError : Type 0 where
  component_not_found : OrchestratorError
  component_exists : OrchestratorError
  invalid_component_type : OrchestratorError
  directive_queue_full : OrchestratorError
  element_queue_full : OrchestratorError

abbrev pub TextSet : Type 0
TextSet = Map (Unit {0})

pub record ComponentStore : Type 0 where
  pub agent_specs : Map ProbingAgentSpec
  pub agent_status : Map ProbingAgentStatus
  pub generator_specs : Map ProbingDirectiveGeneratorSpec
  pub generator_status : Map ProbingDirectiveGeneratorStatus
  pub dirty_agent_uuids : TextSet
  pub dirty_generator_uuids : TextSet

unfoldable pub new_component_store : ComponentStore
new_component_store = record {
  agent_specs = [];
  agent_status = [];
  generator_specs = [];
  generator_status = [];
  dirty_agent_uuids = [];
  dirty_generator_uuids = [];
}

-- The loop with `break` that overwrites the first spec of the same address.
unfoldable pub replace_spec : ProbingAgentSpec → List ProbingAgentSpec → List ProbingAgentSpec
replace_spec spec [] = []
replace_spec spec (x ∷ xs) =
    ite (text_eq x.grpc_address spec.grpc_address) (spec ∷ xs) (x ∷ replace_spec spec xs)

-- The search for `alreadyExists`.
unfoldable pub has_address : Text → List ProbingAgentSpec → Bool
has_address a [] = false
has_address a (x ∷ xs) = ite (text_eq x.grpc_address a) true (has_address a xs)

-- `if !alreadyExists { append }`
unfoldable pub append_spec : ProbingAgentSpec → List ProbingAgentSpec → List ProbingAgentSpec
append_spec spec xs = if has_address spec.grpc_address xs then xs else xs ++ spec ∷ []

-- The loop with `break` that cuts out the first spec of an address.
unfoldable pub remove_spec : Text → List ProbingAgentSpec → List ProbingAgentSpec
remove_spec a [] = []
remove_spec a (x ∷ xs) = ite (text_eq x.grpc_address a) xs (x ∷ remove_spec a xs)

abbrev pub with_agent_specs :
    (List ProbingAgentSpec → List ProbingAgentSpec)
    → ProbingDirectiveGeneratorStatus
    → ProbingDirectiveGeneratorStatus
with_agent_specs f status = record status { agent_specs = f status.agent_specs }

-- `dirty[uuid] = struct{}{}` for each uuid that a loop visits.
unfoldable pub mark_all : List Text → TextSet → TextSet
mark_all [] dirty = dirty
mark_all (u ∷ us) dirty = mark_all us (insert u tt dirty)

-- The branch of an agent that exists.
unfoldable pub update_existing_agent : ProbingAgentSpec → Text → ComponentStore → ComponentStore
update_existing_agent spec uuid c = record c {
  dirty_agent_uuids = insert uuid tt c.dirty_agent_uuids;
  generator_status = map_values (with_agent_specs (replace_spec spec)) c.generator_status;
}

-- The branch of a new agent. Each round of the loop over the generators touches its own entry and
-- mark only, so the visiting order does not show.
unfoldable pub announce_new_agent : ProbingAgentSpec → ComponentStore → ComponentStore
announce_new_agent spec c = record c {
  generator_status = map_values (with_agent_specs (append_spec spec)) c.generator_status;
  dirty_generator_uuids = mark_all (keys c.generator_status) c.dirty_generator_uuids;
}

-- Its error is always nil.
unfoldable pub add_or_update_agent :
    ProbingAgentSpec → ProbingAgentStatus → ComponentStore → ComponentStore
unfolding update_existing_agent announce_new_agent
add_or_update_agent spec status c =
    let stored : ComponentStore = record c {
      agent_specs = insert status.uuid spec c.agent_specs;
      agent_status = insert status.uuid status c.agent_status;
    } in
    elim (get status.uuid c.agent_specs) [
      | some _ ↦ update_existing_agent spec status.uuid stored
      | none ↦ announce_new_agent spec stored
    ]

-- What `RemoveAgent` does once it has found the spec.
unfoldable pub forget_agent : Text → ProbingAgentSpec → ComponentStore → ComponentStore
forget_agent uuid spec c = record c {
  agent_specs = delete uuid c.agent_specs;
  agent_status = delete uuid c.agent_status;
  dirty_agent_uuids = delete uuid c.dirty_agent_uuids;
  generator_status =
      map_values (with_agent_specs (remove_spec spec.grpc_address)) c.generator_status;
  dirty_generator_uuids = mark_all (keys c.generator_status) c.dirty_generator_uuids;
}

unfoldable pub remove_agent : Text → ComponentStore → ComponentStore × Option OrchestratorError
unfolding forget_agent
remove_agent uuid c = elim (get uuid c.agent_specs) [
  | none ↦ (c, some component_not_found)
  | some spec ↦ (forget_agent uuid spec c, none)
]

-- Its error is always nil. `r` is the order in which the loop visits the agents' specs.
unfoldable pub add_or_update_generator :
    Range ProbingAgentSpec
    → ProbingDirectiveGeneratorSpec
    → ProbingDirectiveGeneratorStatus
    → ComponentStore
    → ComponentStore
add_or_update_generator r spec status c =
    let specs = insert status.uuid spec c.generator_specs in
    elim (get status.uuid c.generator_specs) [
      | some _ ↦ record c {
        generator_specs = specs;
        generator_status = insert status.uuid status c.generator_status;
        dirty_generator_uuids = insert status.uuid tt c.dirty_generator_uuids;
      }
      | none ↦ record c {
        generator_specs = specs;
        generator_status =
            insert status.uuid (record status { agent_specs = values (r.visit c.agent_specs) })
              c.generator_status;
      }
    ]

unfoldable pub remove_generator : Text → ComponentStore → ComponentStore × Option OrchestratorError
remove_generator uuid c = elim (get uuid c.generator_specs) [
  | none ↦ (c, some component_not_found)
  | some _ ↦ (
    record c {
      generator_specs = delete uuid c.generator_specs;
      generator_status = delete uuid c.generator_status;
      dirty_generator_uuids = delete uuid c.dirty_generator_uuids;
    },
    none,
  )
]

-- A missing status reads as nil.
unfoldable pub get_agent :
    Text → ComponentStore → Result OrchestratorError (ProbingAgentSpec × Option ProbingAgentStatus)
get_agent uuid c = elim (get uuid c.agent_specs) [
  | none ↦ err component_not_found
  | some spec ↦ ok (spec, get uuid c.agent_status)
]

unfoldable pub get_generator :
    Text
    → ComponentStore
    → Result OrchestratorError
        (ProbingDirectiveGeneratorSpec × Option ProbingDirectiveGeneratorStatus)
get_generator uuid c = elim (get uuid c.generator_specs) [
  | none ↦ err component_not_found
  | some spec ↦ ok (spec, get uuid c.generator_status)
]

unfoldable pub update_agent_status :
    Text → ProbingAgentStatus → ComponentStore → ComponentStore × Option OrchestratorError
update_agent_status uuid status c = elim (get uuid c.agent_specs) [
  | none ↦ (c, some component_not_found)
  | some _ ↦ (
    record c {
      agent_status = insert uuid (record status { uuid = uuid }) c.agent_status;
      dirty_agent_uuids = insert uuid tt c.dirty_agent_uuids;
    },
    none,
  )
]

unfoldable pub update_generator_status :
    Text
    → ProbingDirectiveGeneratorStatus
    → ComponentStore
    → ComponentStore × Option OrchestratorError
update_generator_status uuid status c = elim (get uuid c.generator_specs) [
  | none ↦ (c, some component_not_found)
  | some _ ↦ (
    record c {
      generator_status = insert uuid (record status { uuid = uuid }) c.generator_status;
      dirty_generator_uuids = insert uuid tt c.dirty_generator_uuids;
    },
    none,
  )
]

unfoldable pub list_agents : Range ProbingAgentSpec → ComponentStore → List ProbingAgentSpec
list_agents r c = values (r.visit c.agent_specs)

unfoldable pub list_generators :
    Range ProbingDirectiveGeneratorSpec → ComponentStore → List ProbingDirectiveGeneratorSpec
list_generators r c = values (r.visit c.generator_specs)

-- The dirty uuids that still have a status; the set is emptied.
unfoldable pub get_dirty_agent_uuids :
    Range (Unit {0}) → ComponentStore → List Text × ComponentStore
get_dirty_agent_uuids r c = (
  filter_keys c.agent_status (keys (r.visit c.dirty_agent_uuids)),
  record c { dirty_agent_uuids = [] },
)

unfoldable pub get_dirty_generator_uuids :
    Range (Unit {0}) → ComponentStore → List Text × ComponentStore
get_dirty_generator_uuids r c = (
  filter_keys c.generator_status (keys (r.visit c.dirty_generator_uuids)),
  record c { dirty_generator_uuids = [] },
)

unfoldable pub agent_count : ComponentStore → ℕ
agent_count c = length c.agent_specs

unfoldable pub generator_count : ComponentStore → ℕ
generator_count c = length c.generator_specs

unfoldable pub has_dirty_components : ComponentStore → Bool
has_dirty_components c =
    ltb 0 (length c.dirty_agent_uuids) || ltb 0 (length c.dirty_generator_uuids)
