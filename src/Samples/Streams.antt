-- ===== src/Samples/Streams.antt =====
-- Samples of the generator, internal/components/generator, and of the agent's pace,
-- internal/components/agent/manager.go.
use iprl_poc.Common.{
  ℕ, ◌*◌, ◌<◌, [], ◌∷◌, none, some, ◌≡◌, ◌≢◌, refl, ◌⊎◌, codes, arith, length, Mem, mem-cons,
  not-mem-nil,
}
use mathlib.Core.Logic.Or
use iprl_poc.Common.Int.{pos}
use iprl_poc.Common.Pacing.{Paces}
use iprl_poc.Proto.{ProbingAgentSpec, ProbingDirective}
use iprl_poc.Generator.Mock.{directive, generate_directive}
use iprl_poc.Generator.Mock.Bounds.{Fits, generate_directive-Fits}
use iprl_poc.Generator.Manager.{pulled, retry_later, sends_after, stream_turn}
use iprl_poc.Generator.Manager.Stream.{stream_turn-Paces}
use iprl_poc.Common.{All, Nodup, ◌+◌}
use iprl_poc.Common.GoMap.{get}
use iprl_poc.Orchestrator.Store.{agent_count, new_component_store, add_or_update_generator}
use iprl_poc.Orchestrator.Manager.{join_generator, new_orchestrator_manager}
use iprl_poc.Agent.Manager.{leave_cluster}
use iprl_poc.Agent.Manager.Attempts.{broken_attempts, broken_attempts-agent_count}
use iprl_poc.Proto.{ForwardingInfoElement}
use iprl_poc.Agent.MockProber.{generate_element}
use iprl_poc.Agent.MockProber.Bounds.{IsPlausible, generate_element-IsPlausible}
use iprl_poc.Samples.Data.{
  Nodup-two, first_agent, generator_spec, generator_status, zeros, udp_directive, with_generator,
  new_agent, all_zero,
}

one_agent_placed : (a : ProbingAgentSpec) → Mem a (first_agent ∷ []) → a.vantage_point ≢ none
one_agent_placed a m =
    let is_prop : IsProp (a.vantage_point ≢ none) = hlevel in
    Or.elim is_prop (mem-cons.0 m) (λ e. rw e (λ n. cc)) (λ later. absurd (not-mem-nil later))

generate_directive-Fits_example :
    (d : ProbingDirective) × (j : ℕ) × (generate_directive zeros generator_spec
        (some (generator_status (first_agent ∷ [])))
        0
      ≡ directive d j)
    × Fits generator_spec (first_agent ∷ []) d
generate_directive-Fits_example =
    generate_directive-Fits zeros generator_spec (generator_status (first_agent ∷ [])) 0
      (omega arith)
      (record { min_fits = omega arith; max_fits = omega arith; not_all = omega arith })
      one_agent_placed

stream_turn-Paces_example :
    let s = generator_status (first_agent ∷ []) in
    let turn = stream_turn (some s) (some s) (pulled udp_directive) in
    let rate = s.probe_generation_rate_per_second_per_agent * length s.agent_specs in
    ((rate ≡ 0) × (turn ≡ retry_later))
    ⊎ ((q : ℕ) × (0 < rate) × (turn ≡ sends_after (pos q) udp_directive) × Paces rate q)
stream_turn-Paces_example =
    stream_turn-Paces (generator_status (first_agent ∷ [])) udp_directive (omega arith)
      (omega arith)

two_uuids : Nodup (codes "b" ∷ codes "c" ∷ [])
two_uuids = Nodup-two (codes "b") (codes "c") (λ e. ground arith)

fresh_uuids : All (λ j. get j with_generator.store.agent_specs ≡ none) (codes "b" ∷ codes "c" ∷ [])
unfolding get join_generator add_or_update_generator new_orchestrator_manager new_component_store
fresh_uuids = (refl, (refl, tt))

broken_attempts-agent_count_example :
    let (a', m') =
      broken_attempts first_agent (codes "b" ∷ codes "c" ∷ []) new_agent with_generator in
    (agent_count m'.store ≡ agent_count with_generator.store + 2)
    × (leave_cluster a' ≡ some (first_agent.orchestrator_address, codes "c"))
broken_attempts-agent_count_example =
    broken_attempts-agent_count (codes "b") (codes "c" ∷ []) first_agent new_agent with_generator
      refl two_uuids fresh_uuids

generate_element-IsPlausible_example :
    (e : ForwardingInfoElement) × (j : ℕ) × (generate_element all_zero 1000000000
        (some first_agent)
        udp_directive
        0
      ≡ some (e, j))
    × IsPlausible udp_directive first_agent 1000000000 e
generate_element-IsPlausible_example =
    generate_element-IsPlausible all_zero 1000000000 first_agent udp_directive 0 (omega arith)
