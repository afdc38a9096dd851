-- ===== src/Orchestrator/Manager/Deliver/Join.antt =====
-- From an agent's Join to the processes of the generators: internal/components/orchestrator/manager.go
-- with the Update handler of internal/components/generator/manager.go.
use mathlib.Core.List.Perm
use iprl_poc.Common.{List, Perm}
