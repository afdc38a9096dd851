-- ===== src/Components/Meta.antt =====
-- `MetaManager` of internal/components/components.go, through which a component reads and writes the
-- spec and the status of its manager.
use iprl_poc.Common.{◌≡◌}

pub record MetaManager (Spec Status : Type 0) : Type 1 where
  pub State : Type 0
  pub get_spec : State → Spec
  pub set_spec : Spec → State → State
  pub get_status : State → Status
  pub set_status : Status → State → State

-- A getter gives what its setter put, the other setter does not change it, and putting back what is
-- there changes nothing.
pub record IsMetaManager {Spec Status : Type 0} (m : MetaManager Spec Status) : Type 0 where
  pub get_set_spec : (x : Spec) (s : m.State) → m.get_spec (m.set_spec x s) ≡ x
  pub get_set_status : (x : Status) (s : m.State) → m.get_status (m.set_status x s) ≡ x
  pub spec_kept : (x : Status) (s : m.State) → m.get_spec (m.set_status x s) ≡ m.get_spec s
  pub status_kept : (x : Spec) (s : m.State) → m.get_status (m.set_spec x s) ≡ m.get_status s
  pub set_get_spec : (s : m.State) → m.set_spec (m.get_spec s) s ≡ s
  pub set_get_status : (s : m.State) → m.set_status (m.get_status s) s ≡ s
