-- ===== src/Orchestrator/Store/Registry/Refinement.antt =====
-- The store of internal/components/orchestrator/store.go against the registry that it implements.
use iprl_poc.Common.{List, [], ◌∷◌, ◌≡◌, refl, inl, inr, Text, arith, Option-cases, ap, ◌∙◌}
use mathlib.Core.Path.{fun_ext}
use iprl_poc.Common.GoMap.{Range, get, values, get-insert, get-delete, get-map_values}
use iprl_poc.Proto.{
  ProbingAgentSpec, ProbingAgentStatus, ProbingDirectiveGeneratorSpec,
  ProbingDirectiveGeneratorStatus,
}
use iprl_poc.Orchestrator.Store.{
  ComponentStore, new_component_store, replace_spec, append_spec, remove_spec, with_agent_specs,
  add_or_update_agent, remove_agent, add_or_update_generator, remove_generator, update_agent_status,
  update_generator_status, get_dirty_agent_uuids, get_dirty_generator_uuids, get_agent,
  get_generator,
}
use iprl_poc.Orchestrator.Store.Consistency.{contains-mark_all}
use iprl_poc.Orchestrator.Store.History.{
  Command, add_agent, drop_agent, add_generator, drop_generator, set_agent_status,
  set_generator_status, drain_agents, drain_generators, step, run,
}
use iprl_poc.Orchestrator.Store.Consistency.{IsConsistent, new_component_store-IsConsistent}
use iprl_poc.Orchestrator.Store.History.{step-IsConsistent}
use iprl_poc.Orchestrator.Store.Registry.{Registry, replay, replay_all, new_registry, view}

registry_ext :
    (r s : Registry)
    → ((v : Text) → r.agents v ≡ s.agents v)
    → ((v : Text) → r.generators v ≡ s.generators v)
    → ((v : Text) → r.told_agents v ≡ s.told_agents v)
    → ((v : Text) → r.told_generators v ≡ s.told_generators v)
    → r ≡ s
registry_ext r s a g ta tg = λ i. record {
  agents = fun_ext a i;
  generators = fun_ext g i;
  told_agents = fun_ext ta i;
  told_generators = fun_ext tg i;
}

add_agent-replay :
    (spec : ProbingAgentSpec) (status : ProbingAgentStatus) (c : ComponentStore)
    → IsConsistent c
    → view (add_or_update_agent spec status c) ≡ replay (view c) (add_agent spec status)
unfolding add_or_update_agent view replay get_agent get_generator
add_agent-replay spec status c h =
    registry_ext _ _
      (λ v. ground (
        arith,
        get-insert status.uuid v spec c.agent_specs,
        get-insert status.uuid v status c.agent_status,
      ))
      (λ v. ground (
        arith,
        get-map_values (with_agent_specs (replace_spec spec)) v c.generator_status,
        get-map_values (with_agent_specs (append_spec spec)) v c.generator_status,
      ))
      (λ v. ground (arith, get-insert status.uuid v tt c.dirty_agent_uuids))
      (λ v.
        ground
          (arith, contains-mark_all v c.generator_status c.dirty_generator_uuids, h.generators v))

drop_agent-replay :
    (u : Text) (c : ComponentStore)
    → IsConsistent c
    → view ((remove_agent u c).0) ≡ replay (view c) (drop_agent u)
unfolding remove_agent view replay get_agent get_generator
drop_agent-replay u c h =
    registry_ext _ _
      (λ v. ground (arith, get-delete u v c.agent_specs, get-delete u v c.agent_status))
      (λ v. elim (Option-cases (get u c.agent_specs)) [
        | inl e ↦ ground (arith, e)
        | inr (a, e) ↦ ground (
          arith,
          e,
          get-map_values (with_agent_specs (remove_spec a.grpc_address)) v c.generator_status,
        )
      ])
      (λ v. ground (arith, get-delete u v c.dirty_agent_uuids))
      (λ v.
        ground
          (arith, contains-mark_all v c.generator_status c.dirty_generator_uuids, h.generators v))

add_generator-replay :
    (r : Range ProbingAgentSpec) (spec : ProbingDirectiveGeneratorSpec)
    (status : ProbingDirectiveGeneratorStatus) (c : ComponentStore)
    → view (add_or_update_generator r spec status c) ≡ replay (view c) (add_generator r spec status)
unfolding add_or_update_generator view replay get_agent get_generator
add_generator-replay r spec status c =
    registry_ext _ _ (λ v. ground (arith))
      (λ v. ground (
        arith,
        get-insert status.uuid v spec c.generator_specs,
        get-insert status.uuid v status c.generator_status,
        get-insert status.uuid v (record status { agent_specs = values (r.visit c.agent_specs) })
            c.generator_status,
      ))
      (λ v. ground (arith))
      (λ v. ground (arith, get-insert status.uuid v tt c.dirty_generator_uuids))

drop_generator-replay :
    (u : Text) (c : ComponentStore)
    → view ((remove_generator u c).0) ≡ replay (view c) (drop_generator u)
unfolding remove_generator view replay get_agent get_generator
drop_generator-replay u c =
    registry_ext _ _ (λ v. ground (arith))
      (λ v. ground (arith, get-delete u v c.generator_specs, get-delete u v c.generator_status))
      (λ v. ground (arith)) (λ v. ground (arith, get-delete u v c.dirty_generator_uuids))

set_agent_status-replay :
    (u : Text) (status : ProbingAgentStatus) (c : ComponentStore)
    → view ((update_agent_status u status c).0) ≡ replay (view c) (set_agent_status u status)
unfolding update_agent_status view replay get_agent get_generator
set_agent_status-replay u status c =
    registry_ext _ _
      (λ v. ground (arith, get-insert u v (record status { uuid = u }) c.agent_status))
      (λ v. ground (arith)) (λ v. ground (arith, get-insert u v tt c.dirty_agent_uuids))
      (λ v. ground (arith))

set_generator_status-replay :
    (u : Text) (status : ProbingDirectiveGeneratorStatus) (c : ComponentStore)
    → view ((update_generator_status u status c).0)
      ≡ replay (view c) (set_generator_status u status)
unfolding update_generator_status view replay get_agent get_generator
set_generator_status-replay u status c =
    registry_ext _ _ (λ v. ground (arith))
      (λ v. ground (arith, get-insert u v (record status { uuid = u }) c.generator_status))
      (λ v. ground (arith)) (λ v. ground (arith, get-insert u v tt c.dirty_generator_uuids))

drain_agents-replay :
    (r : Range (Unit {0})) (c : ComponentStore)
    → view ((get_dirty_agent_uuids r c).1) ≡ replay (view c) (drain_agents r)
unfolding get_dirty_agent_uuids view replay get get_agent get_generator
drain_agents-replay r c = refl

drain_generators-replay :
    (r : Range (Unit {0})) (c : ComponentStore)
    → view ((get_dirty_generator_uuids r c).1) ≡ replay (view c) (drain_generators r)
unfolding get_dirty_generator_uuids view replay get get_agent get_generator
drain_generators-replay r c = refl

step-replay :
    (c : ComponentStore) (x : Command) → IsConsistent c → view (step c x) ≡ replay (view c) x
unfolding step
step-replay c (add_agent spec status) h = add_agent-replay spec status c h
step-replay c (drop_agent u) h = drop_agent-replay u c h
step-replay c (add_generator r spec status) h = add_generator-replay r spec status c
step-replay c (drop_generator u) h = drop_generator-replay u c
step-replay c (set_agent_status u status) h = set_agent_status-replay u status c
step-replay c (set_generator_status u status) h = set_generator_status-replay u status c
step-replay c (drain_agents r) h = drain_agents-replay r c
step-replay c (drain_generators r) h = drain_generators-replay r c

consistent_run-replay_all :
    (c : ComponentStore) (xs : List Command)
    → IsConsistent c
    → view (run c xs) ≡ replay_all (view c) xs
unfolding run replay_all
consistent_run-replay_all c [] h = refl
consistent_run-replay_all c (x ∷ xs) h =
    consistent_run-replay_all (step c x) xs (step-IsConsistent c x h)
    ∙ ap (λ (r : Registry). replay_all r xs) (step-replay c x h)

new_component_store-view : view new_component_store ≡ new_registry
unfolding new_component_store view get get_agent get_generator new_registry
new_component_store-view = refl

-- A store that starts empty implements the registry that starts empty: after any calls of the
-- methods that write, what `GetAgent`, `GetGenerator` and the two dirty sets show of every uuid is
-- what the registry holds after the same calls, the agent lists in the generators' statuses left
-- aside.
pub run-replay_all :
    (xs : List Command) → view (run new_component_store xs) ≡ replay_all new_registry xs
run-replay_all xs =
    consistent_run-replay_all _ xs new_component_store-IsConsistent
    ∙ ap (λ (r : Registry). replay_all r xs) new_component_store-view
