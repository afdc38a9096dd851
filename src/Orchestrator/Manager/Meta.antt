-- ===== src/Orchestrator/Manager/Meta.antt =====
-- The manager of internal/components/orchestrator/manager.go as a MetaManager.
use iprl_poc.Common.{refl}
use iprl_poc.Proto.{ProbingOrchestratorSpec, ProbingOrchestratorStatus}
use iprl_poc.Components.Meta.{MetaManager, IsMetaManager}
use iprl_poc.Orchestrator.Manager.{OrchestratorManager, get_spec, set_spec, get_status, set_status}

abbrev orchestrator_meta : MetaManager ProbingOrchestratorSpec ProbingOrchestratorStatus
orchestrator_meta = record {
  State = OrchestratorManager;
  get_spec = get_spec;
  set_spec = set_spec;
  get_status = get_status;
  set_status = set_status;
}

-- The manager keeps the contract of its interface.
orchestrator_meta-IsMetaManager : IsMetaManager orchestrator_meta
unfolding get_spec set_spec get_status set_status
orchestrator_meta-IsMetaManager = record {
  get_set_spec = λ x s. refl;
  get_set_status = λ x s. refl;
  spec_kept = λ x s. refl;
  status_kept = λ x s. refl;
  set_get_spec = λ s. refl;
  set_get_status = λ s. refl;
}
