-- ===== src/Agent/Manager/Meta.antt =====
-- The manager of internal/components/agent/manager.go as a MetaManager.
use iprl_poc.Common.{Option, refl}
use iprl_poc.Proto.{ProbingAgentSpec, ProbingAgentStatus}
use iprl_poc.Components.Meta.{MetaManager, IsMetaManager}
use iprl_poc.Agent.Manager.{AgentManager, get_spec, set_spec, get_status, set_status}

abbrev agent_meta : MetaManager (Option ProbingAgentSpec) (Option ProbingAgentStatus)
agent_meta = record {
  State = AgentManager;
  get_spec = get_spec;
  set_spec = set_spec;
  get_status = get_status;
  set_status = set_status;
}

-- The manager keeps the contract of its interface.
agent_meta-IsMetaManager : IsMetaManager agent_meta
unfolding get_spec set_spec get_status set_status
agent_meta-IsMetaManager = record {
  get_set_spec = λ x s. refl;
  get_set_status = λ x s. refl;
  spec_kept = λ x s. refl;
  status_kept = λ x s. refl;
  set_get_spec = λ s. refl;
  set_get_status = λ s. refl;
}
