-- ===== src/Samples/Programs.antt =====
-- Samples of the way of a directive through internal/components/orchestrator/manager.go, and of the
-- programs under cmd.
use iprl_poc.Common.{
  ℕ, ◌%◌, ◌^◌, ◌≤◌, List, [], ◌∷◌, none, some, ◌≡◌, refl, arith, codes, Text, ◌↔◌,
}
use iprl_poc.Common.Channel.{make}
use iprl_poc.Proto.{ProbingDirective, ForwardingInfoElement}
use iprl_poc.Orchestrator.Manager.{new_orchestrator_manager}
use iprl_poc.Orchestrator.Manager.Queues.{message, deliver, deliver_fails}
use iprl_poc.Orchestrator.Manager.Dispatch.{
  Leg, generator_pushes, agent_takes, dispatch, Conserved, dispatch-Conserved,
}
use iprl_poc.Agent.MockProber.{generate_element}
use iprl_poc.Agent.MockProber.Bounds.{IsPlausible}
use iprl_poc.Agent.Manager.{element_interval}
use iprl_poc.Agent.Manager.Pacing.{joined}
use iprl_poc.Generator.Mock.{generate_directive, directive}
use iprl_poc.Commands.{
  AgentFlags, GeneratorFlags, OrchestratorFlags, agent_spec_of, generator_spec_of,
  orchestrator_spec_of,
}
use iprl_poc.Commands.Pipeline.{flags-IsPlausible, rate-element_interval}
use iprl_poc.Samples.Data.{
  all_zero, zeros, udp_directive, icmp_directive, queue_of, empty_cluster, generator_status,
  first_agent, new_agent,
}

-- Two directives are pushed, and two agents take one each; the second Send fails.
abbrev two_agents : List Leg
two_agents =
    generator_pushes (message udp_directive ∷ message icmp_directive ∷ [])
    ∷ agent_takes (codes "a") (deliver ∷ [])
    ∷ agent_takes (codes "b") (deliver_fails ∷ [])
    ∷ []

dispatch-Conserved_example : Conserved two_agents (queue_of []) (dispatch two_agents empty_cluster)
unfolding new_orchestrator_manager make
dispatch-Conserved_example =
    dispatch-Conserved two_agents empty_cluster (queue_of []) refl refl (omega arith)

abbrev pub agent_flags : AgentFlags
agent_flags = record {
  address = codes ":50051";
  po_addr = codes "localhost:50050";
  buffer_length = 10000;
  vp_ip = codes "1.1.1.1";
  vp_name = codes "vp-1";
  vp_asn = 0;
  vp_provider = codes "unknown";
  seed = 42;
  mock_buffer = 10000;
}

abbrev pub generator_flags : GeneratorFlags
generator_flags = record {
  address = codes ":50049";
  po_addr = codes "localhost:50050";
  min_ttl = 1;
  max_ttl = 32;
  retries = 3;
  protocols = codes "icmp,udp";
  seed = 42;
  mock_buffer = 10000;
}

-- A rate that `uint32` cuts to 0.
abbrev orchestrator_flags : OrchestratorFlags
orchestrator_flags = record {
  grpc_addr = codes ":50050";
  http_addr = codes ":80";
  rate = 2 ^ 32;
  retries = 3;
  directive_buffer = 10000;
  element_buffer = 10000;
}

-- The one address that the samples parse.
abbrev pub one_ip : Text → List ℕ
one_ip s = 1 ∷ 1 ∷ 1 ∷ 1 ∷ []

flags-IsPlausible_example :
    let version = codes "dev" in
    let status = generator_status (agent_spec_of one_ip version agent_flags ∷ []) in
    (d : ProbingDirective) × (i' : ℕ) × (generate_directive zeros
        (generator_spec_of version generator_flags)
        (some status)
        0
      ≡ directive d i')
    × (1 ≤ d.near_ttl)
    × (d.near_ttl ≤ 32)
    × (e : ForwardingInfoElement) × (j' : ℕ) × (generate_element all_zero 1000000000
          (some (agent_spec_of one_ip version agent_flags))
          d
          0
        ≡ some (e, j'))
    × IsPlausible d (agent_spec_of one_ip version agent_flags) 1000000000 e
flags-IsPlausible_example =
    flags-IsPlausible one_ip (codes "dev") generator_flags agent_flags agent_flags []
      (generator_status (agent_spec_of one_ip (codes "dev") agent_flags ∷ [])) zeros all_zero
      1000000000 0 0 (omega arith) (omega arith) (omega arith) refl

rate-element_interval_example :
    let m = new_orchestrator_manager (orchestrator_spec_of (codes "dev") orchestrator_flags) in
    (element_interval (joined (codes "a") first_agent new_agent m).current_status ≡ none)
    ↔ (orchestrator_flags.rate % 2 ^ 32 ≡ 0)
rate-element_interval_example =
    rate-element_interval (codes "dev") orchestrator_flags (codes "a") first_agent new_agent

abbrev pub print_any : List ℕ → Text
print_any bytes = codes "8.8.8.8"
