-- ===== src/Agent/Manager/Attempts.antt =====
-- The attempts of `runElementStream` (internal/components/agent/manager.go) against the registry of
-- internal/components/orchestrator.
use iprl_poc.Common.{
  ◌+◌, List, [], ◌∷◌, none, some, true, false, ◌≡◌, ◌≢◌, refl, Text, arith, length, ok, All, Mem,
  mem-cons, Nodup,
}
use mathlib.Core.List.{Nodup-cons}
use mathlib.Core.Logic.Or
use iprl_poc.Common.GoMap.{get, insert, get-insert}
use iprl_poc.Common.GoMap.Entries.{length-insert_new}
use iprl_poc.Proto.{ProbingAgentSpec}
use iprl_poc.Orchestrator.Store.{OrchestratorError, add_or_update_agent, agent_count}
use iprl_poc.Orchestrator.Manager.{OrchestratorManager, agent_status_for, join_agent}
use iprl_poc.Agent.Manager.{
  AgentManager, Attempt, retries, join_cluster, leave_cluster, set_status, run_attempt,
}

-- An attempt whose Join reaches the orchestrator and whose stream then breaks, under the uuid `id`.
abbrev pub broken_attempt :
    Text → ProbingAgentSpec → OrchestratorManager → Attempt OrchestratorError
broken_attempt id spec m = record {
  is_cancelled = false;
  dials = true;
  reply = ok (join_agent id spec m).1;
  opens = true;
  streams = false;
}

-- One such attempt after another, as `backoff.Retry` makes them; the uuids are those that the
-- orchestrator draws.
unfoldable pub broken_attempts :
    ProbingAgentSpec
    → List Text
    → AgentManager
    → OrchestratorManager
    → AgentManager × OrchestratorManager
broken_attempts spec [] a m = (a, m)
broken_attempts spec (id ∷ ids) a m =
    broken_attempts spec ids (run_attempt (broken_attempt id spec m) a).0 (join_agent id spec m).0

-- The uuid of the last attempt.
abbrev pub last_id : Text → List Text → Text
last_id id [] = id
last_id id (j ∷ ids) = last_id j ids

run_attempt-broken :
    (id : Text) (spec : ProbingAgentSpec) (a : AgentManager) (m : OrchestratorManager)
    → a.current_spec ≡ some spec
    → run_attempt (broken_attempt id spec m) a
      ≡ (record a { current_status = some (agent_status_for id m) }, retries)
unfolding run_attempt join_cluster set_status join_agent
run_attempt-broken id spec a m h = ground arith

join_agent-agent_specs :
    (id : Text) (spec : ProbingAgentSpec) (m : OrchestratorManager)
    → (join_agent id spec m).0.store.agent_specs ≡ insert id spec m.store.agent_specs
unfolding join_agent add_or_update_agent
join_agent-agent_specs id spec m = ground arith

grows :
    (id : Text) (spec : ProbingAgentSpec) (m : OrchestratorManager)
    → get id m.store.agent_specs ≡ none
    → agent_count (join_agent id spec m).0.store ≡ agent_count m.store + 1
unfolding agent_count
grows id spec m new =
    rw (join_agent-agent_specs id spec m)
      (omega (arith, length-insert_new id spec m.store.agent_specs new))

-- Uuids that are fresh stay so when another one is taken.
fresh_after :
    (id : Text) (spec : ProbingAgentSpec) (ids : List Text) (m : OrchestratorManager)
    → ¬ Mem id ids
    → All (λ j. get j m.store.agent_specs ≡ none) ids
    → All (λ j. get j (join_agent id spec m).0.store.agent_specs ≡ none) ids
fresh_after id spec [] m n h = tt
fresh_after id spec (j ∷ ids) m n h =
    let other : id ≢ j = λ e. n (mem-cons.1 (Or.inl e)) in
    (
      rw (join_agent-agent_specs id spec m)
          (ground (arith, get-insert id j spec m.store.agent_specs, h.0)),
      fresh_after id spec ids m (λ later. n (mem-cons.1 (Or.inr later))) h.1,
    )

-- Each broken attempt leaves one more agent in the registry: after as many as there are fresh uuids,
-- the count has grown by that number, and the agent will leave under the last uuid only.
pub broken_attempts-agent_count :
    (id : Text) (ids : List Text) (spec : ProbingAgentSpec) (a : AgentManager)
    (m : OrchestratorManager)
    → a.current_spec ≡ some spec
    → Nodup (id ∷ ids)
    → All (λ j. get j m.store.agent_specs ≡ none) (id ∷ ids)
    → let (a', m') = broken_attempts spec (id ∷ ids) a m in
      (agent_count m'.store ≡ agent_count m.store + length (id ∷ ids))
      × (leave_cluster a' ≡ some (spec.orchestrator_address, last_id id ids))
unfolding broken_attempts agent_count leave_cluster agent_status_for
broken_attempts-agent_count id [] spec a m h d fresh =
    let grown : agent_count (join_agent id spec m).0.store ≡ agent_count m.store + 1 =
      grows id spec m fresh.0 in
    rw (run_attempt-broken id spec a m h) (grown, rw (h, leave_cluster) refl)
broken_attempts-agent_count id (j ∷ ids) spec a m h d fresh =
    let m' = (join_agent id spec m).0 in
    let a' : AgentManager = record a { current_status = some (agent_status_for id m) } in
    let later = (Nodup-cons.0 d).1 in
    let still = fresh_after id spec (j ∷ ids) m (Nodup-cons.0 d).0 fresh.1 in
    let rest = broken_attempts-agent_count j ids spec a' m' h later still in
    let grown : agent_count m'.store ≡ agent_count m.store + 1 = grows id spec m fresh.0 in
    rw (run_attempt-broken id spec a m h, broken_attempts) (omega (arith, rest.0, grown), rest.1)
