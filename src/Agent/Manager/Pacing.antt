-- ===== src/Agent/Manager/Pacing.antt =====
-- The agent of internal/components/agent/manager.go against the orchestrator of
-- internal/components/orchestrator/manager.go: the pause before an element.
use iprl_poc.Common.{
  ℕ, zero, suc, ◌<◌, none, some, ◌≡◌, refl, ◌⊎◌, inl, inr, Text, arith, Result, ok,
}
use iprl_poc.Common.Int.{pos}
use iprl_poc.Common.Pacing.{Paces, div_second, div_second-pos}
use iprl_poc.Proto.{ProbingAgentSpec, JoinResponse}
use iprl_poc.Orchestrator.Store.{OrchestratorError}
use iprl_poc.Orchestrator.Manager.{OrchestratorManager, join_agent}
use iprl_poc.Agent.Manager.{AgentManager, join_cluster, element_interval}

-- The reply of the orchestrator reaches an agent that joins.
abbrev pub joined : Text → ProbingAgentSpec → AgentManager → OrchestratorManager → AgentManager
joined id spec a m =
    let reply : Result OrchestratorError JoinResponse = ok (join_agent id spec m).1 in
    (join_cluster reply a).0

interval_cases :
    (cap : ℕ)
    → ((cap ≡ 0) × (div_second (pos cap) ≡ none))
      ⊎ ((q : ℕ) × (0 < cap) × (div_second (pos cap) ≡ some (pos q)) × Paces cap q)
unfolding div_second
interval_cases zero = inl (refl, refl)
interval_cases (suc n) =
    let (q, e, p) = div_second-pos (suc n) (omega arith) in inr (q, omega arith, e, p)

-- An agent that has joined waits the longest pause at which the orchestrator's rate cap fits in a
-- second before each element; at rate cap 0, it panics at the first element.
pub join_agent-element_interval :
    (id : Text) (spec : ProbingAgentSpec) (a : AgentManager) (m : OrchestratorManager)
    → let cap = m.current_status.global_probing_rate_cap in
      let pause = element_interval (joined id spec a m).current_status in
      ((cap ≡ 0) × (pause ≡ none)) ⊎ ((q : ℕ) × (0 < cap) × (pause ≡ some (pos q)) × Paces cap q)
unfolding join_agent join_cluster element_interval
join_agent-element_interval id spec a m = interval_cases m.current_status.global_probing_rate_cap
