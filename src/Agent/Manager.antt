-- ===== src/Agent/Manager.antt =====
-- internal/components/agent/manager.go: the status of an agent, joining and leaving, the attempts of
-- its stream and the pause before each element. RPC results are arguments.
pub mod Pacing
pub mod Attempts
pub mod Run
mod Meta
pub mod Elements
use iprl_poc.Common.{
  Option, none, some, Bool, true, false, not, ◌&&◌, Text, Result, ok, err, if◌then◌else◌,
}
use iprl_poc.Common.Int.{ℤ, pos}
use iprl_poc.Common.Pacing.{div_second}
use iprl_poc.Proto.{
  ProbingAgentSpec, ProbingAgentStatus, JoinResponse, agent_response, generator_response,
}

-- Nil pointers are `none`.
pub record AgentManager : Type 0 where
  pub current_spec : Option ProbingAgentSpec
  pub current_status : Option ProbingAgentStatus

unfoldable pub new_agent_manager : ProbingAgentSpec → AgentManager
new_agent_manager spec = record { current_spec = some spec; current_status = none }

unfoldable pub get_spec : AgentManager → Option ProbingAgentSpec
get_spec m = m.current_spec

unfoldable pub get_status : AgentManager → Option ProbingAgentStatus
get_status m = m.current_status

unfoldable pub set_spec : Option ProbingAgentSpec → AgentManager → AgentManager
set_spec spec m = record m { current_spec = spec }

unfoldable pub set_status : Option ProbingAgentStatus → AgentManager → AgentManager
set_status status m = record m { current_status = status }

-- The orchestrator's Update call.
unfoldable pub update : ProbingAgentStatus → AgentManager → AgentManager
unfolding set_status
update status m = set_status (some status) m

pub data JoinError {ℓ} (E : Type ℓ) : Type ℓ where
  rpc_error : E → JoinError E
  nil_status : JoinError E

-- What `joinCluster` makes of the reply to its Join call.
unfoldable pub join_cluster {ℓ} :
    {E : Type ℓ} → Result E JoinResponse → AgentManager → AgentManager × Option (JoinError E)
unfolding set_status
join_cluster (err e) m = (m, some (rpc_error e))
join_cluster (ok (generator_response s)) m = (m, some nil_status)
join_cluster (ok (agent_response s)) m = (set_status (some s) m, none)

-- The address and the uuid of the Leave call, if there is one.
unfoldable pub leave_cluster : AgentManager → Option (Text × Text)
leave_cluster m = elim m.current_status [
  | none ↦ none
  | some status ↦ elim m.current_spec [
    | none ↦ none
    | some spec ↦ some (spec.orchestrator_address, status.uuid)
  ]
]

-- The pause before an element is sent; none is a panic, on a nil status or on a division by zero.
unfoldable pub element_interval : Option ProbingAgentStatus → Option ℤ
element_interval none = none
element_interval (some s) = div_second (pos s.probing_rate_cap)

-- What `backoff.Retry` is told at the end of an attempt.
pub data Verdict : Type 0 where
  gives_up retries finishes : Verdict

-- How the steps of an attempt go: whether the context is done, the dial works, the stream opens, and
-- `streamElements` returns nil.
pub record Attempt {ℓ} (E : Type ℓ) : Type ℓ where
  pub is_cancelled : Bool
  pub dials : Bool
  pub reply : Result E JoinResponse
  pub opens : Bool
  pub streams : Bool

-- One call of the function that `runElementStream` retries.
unfoldable pub run_attempt {ℓ} : {E : Type ℓ} → Attempt E → AgentManager → AgentManager × Verdict
run_attempt a m = if a.is_cancelled then (m, gives_up) else elim m.current_spec [
  | none ↦ (m, retries)
  | some _ ↦
      if not a.dials
      then (m, retries)
      else let (m', e) = join_cluster a.reply m in
        elim e [
          | some _ ↦ (m', retries)
          | none ↦ (m', if a.opens && a.streams then finishes else retries)
        ]
]
