-- ===== src/Generator/Manager/Meta.antt =====
-- The manager of internal/components/generator/manager.go as a MetaManager.
use iprl_poc.Common.{Option, refl}
use iprl_poc.Proto.{ProbingDirectiveGeneratorSpec, ProbingDirectiveGeneratorStatus}
use iprl_poc.Components.Meta.{MetaManager, IsMetaManager}
use iprl_poc.Generator.Manager.{GeneratorManager, get_spec, set_spec, get_status, set_status}

abbrev generator_meta :
    MetaManager (Option ProbingDirectiveGeneratorSpec) (Option ProbingDirectiveGeneratorStatus)
generator_meta = record {
  State = GeneratorManager;
  get_spec = get_spec;
  set_spec = set_spec;
  get_status = get_status;
  set_status = set_status;
}

-- The manager keeps the contract of its interface.
generator_meta-IsMetaManager : IsMetaManager generator_meta
unfolding get_spec set_spec get_status set_status
generator_meta-IsMetaManager = record {
  get_set_spec = λ x s. refl;
  get_set_status = λ x s. refl;
  spec_kept = λ x s. refl;
  status_kept = λ x s. refl;
  set_get_spec = λ s. refl;
  set_get_status = λ s. refl;
}
