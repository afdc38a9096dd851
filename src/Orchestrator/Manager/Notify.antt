-- ===== src/Orchestrator/Manager/Notify.antt =====
-- The change notifications of internal/components/orchestrator/manager.go: who is told what.

use iprl_poc.Common.{
  List, [], ◌∷◌, Option, some, true, ◌≡◌, refl, Text, arith, All, All-mono, sym, ◌∙◌, map, ok,
  Option-cases, inl, inr, ap,
}
use mathlib.Core.Option
use iprl_poc.Common.GoMap.{Range, get, keys, contains, filter_keys}
use iprl_poc.Proto.{
  ProbingAgentSpec, ProbingAgentStatus, ProbingDirectiveGeneratorSpec,
  ProbingDirectiveGeneratorStatus,
}
use iprl_poc.Orchestrator.Store.{
  ComponentStore, get_agent, get_generator, get_dirty_agent_uuids, get_dirty_generator_uuids,
}
use iprl_poc.Orchestrator.Store.Consistency.{IsConsistent}
use iprl_poc.Orchestrator.Store.Consistency.Updates.{
  get_dirty_agent_uuids-IsConsistent, get_dirty_generator_uuids-IsConsistent,
}
use iprl_poc.Common.GoMap.Entries.{visit-contains, filter_keys-All, visit-nil}
use iprl_poc.Orchestrator.Manager.{
  AgentNotice, GeneratorNotice, agent_notices, generator_notices, notify_changed_agents,
  notify_changed_generators,
}

-- The uuid that a notice carries in its status.
abbrev pub noticed_agent : AgentNotice → Option Text
noticed_agent n = Option.map (λ s. s.uuid) n.1

abbrev pub noticed_generator : GeneratorNotice → Option Text
noticed_generator n = Option.map (λ s. s.uuid) n.1

-- A notice holds what the store holds under its uuid.
abbrev pub IsCurrentAgent : ComponentStore → AgentNotice → Type 0
IsCurrentAgent c n = (u : Text) × (noticed_agent n ≡ some u) × (get_agent u c ≡ ok n)

abbrev pub IsCurrentGenerator : ComponentStore → GeneratorNotice → Type 0
IsCurrentGenerator c n = (u : Text) × (noticed_generator n ≡ some u) × (get_generator u c ≡ ok n)

get_agent-ok :
    (u : Text) (spec : ProbingAgentSpec) (s : ProbingAgentStatus) (c : ComponentStore)
    → get u c.agent_specs ≡ some spec
    → get u c.agent_status ≡ some s
    → get_agent u c ≡ ok (spec, some s)
unfolding get_agent
get_agent-ok u spec s c e n = ground arith

-- The uuids are registered, so no notice is skipped.
agent_notices-exact :
    (us : List Text) (c : ComponentStore)
    → IsConsistent c
    → All (λ u. contains u c.agent_specs ≡ true) us
    → (map noticed_agent (agent_notices us c) ≡ map some us)
      × All (IsCurrentAgent c) (agent_notices us c)
unfolding agent_notices
agent_notices-exact [] c v h = (refl, tt)
agent_notices-exact (u ∷ us) c v (here, later) = elim (Option-cases (get u c.agent_specs)) [
  | inl e ↦ absurd (ground arith)
  | inr (spec, e) ↦ elim (Option-cases (get u c.agent_status)) [
    | inl n ↦ absurd (ground (arith, v.agents u))
    | inr (s, n) ↦
        let (told, current) = agent_notices-exact us c v later in
        let found = get_agent-ok u spec s c e n in
        let own : some s.uuid ≡ some u = ap (λ t. some t) (v.agent_uuids u s n) in
        rw (found, agent_notices) (cc (told, own), ((u, own, found), current))
  ]
]

-- In a consistent store, a round of notifications tells each dirty agent once, in visiting order,
-- and gives it the spec and status that the store holds for it; a second round finds nothing to tell.
pub notify_changed_agents-exact :
    (r q : Range (Unit {0})) (c : ComponentStore)
    → IsConsistent c
    → let (notices, c') = notify_changed_agents r c in
      (map noticed_agent notices ≡ map some (keys (r.visit c.dirty_agent_uuids)))
      × All (IsCurrentAgent c) notices
      × ((notify_changed_agents q c').0 ≡ [])
unfolding notify_changed_agents get_dirty_agent_uuids get_agent filter_keys
notify_changed_agents-exact r q c v =
    let cleared : ComponentStore = record c { dirty_agent_uuids = [] } in
    let w : IsConsistent cleared = get_dirty_agent_uuids-IsConsistent r c v in
    let dirty = keys (r.visit c.dirty_agent_uuids) in
    let known : All (λ u. contains u c.agent_specs ≡ true) dirty =
      All-mono dirty v.dirty_agents (visit-contains r c.dirty_agent_uuids) in
    let kept =
      filter_keys-All c.agent_status dirty (All-mono dirty (λ u h. sym (v.agents u) ∙ h) known) in
    let (told, current) = agent_notices-exact dirty cleared w known in
    (rw kept told, rw kept current, rw (visit-nil q))

get_generator-ok :
    (u : Text) (spec : ProbingDirectiveGeneratorSpec) (s : ProbingDirectiveGeneratorStatus)
    (c : ComponentStore)
    → get u c.generator_specs ≡ some spec
    → get u c.generator_status ≡ some s
    → get_generator u c ≡ ok (spec, some s)
unfolding get_generator
get_generator-ok u spec s c e n = ground arith

-- The uuids are registered, so no notice is skipped.
generator_notices-exact :
    (us : List Text) (c : ComponentStore)
    → IsConsistent c
    → All (λ u. contains u c.generator_specs ≡ true) us
    → (map noticed_generator (generator_notices us c) ≡ map some us)
      × All (IsCurrentGenerator c) (generator_notices us c)
unfolding generator_notices
generator_notices-exact [] c v h = (refl, tt)
generator_notices-exact (u ∷ us) c v (here, later) = elim (Option-cases (get u c.generator_specs)) [
  | inl e ↦ absurd (ground arith)
  | inr (spec, e) ↦ elim (Option-cases (get u c.generator_status)) [
    | inl n ↦ absurd (ground (arith, v.generators u))
    | inr (s, n) ↦
        let (told, current) = generator_notices-exact us c v later in
        let found = get_generator-ok u spec s c e n in
        let own : some s.uuid ≡ some u = ap (λ t. some t) (v.generator_uuids u s n) in
        rw (found, generator_notices) (cc (told, own), ((u, own, found), current))
  ]
]

-- In a consistent store, a round of notifications tells each dirty generator once, in visiting order,
-- and gives it the spec and status that the store holds for it; a second round finds nothing to tell.
pub notify_changed_generators-exact :
    (r q : Range (Unit {0})) (c : ComponentStore)
    → IsConsistent c
    → let (notices, c') = notify_changed_generators r c in
      (map noticed_generator notices ≡ map some (keys (r.visit c.dirty_generator_uuids)))
      × All (IsCurrentGenerator c) notices
      × ((notify_changed_generators q c').0 ≡ [])
unfolding notify_changed_generators get_dirty_generator_uuids get_generator filter_keys
notify_changed_generators-exact r q c v =
    let cleared : ComponentStore = record c { dirty_generator_uuids = [] } in
    let w : IsConsistent cleared = get_dirty_generator_uuids-IsConsistent r c v in
    let dirty = keys (r.visit c.dirty_generator_uuids) in
    let known : All (λ u. contains u c.generator_specs ≡ true) dirty =
      All-mono dirty v.dirty_generators (visit-contains r c.dirty_generator_uuids) in
    let kept =
      filter_keys-All c.generator_status dirty
        (All-mono dirty (λ u h. sym (v.generators u) ∙ h) known) in
    let (told, current) = generator_notices-exact dirty cleared w known in
    (rw kept told, rw kept current, rw (visit-nil q))
