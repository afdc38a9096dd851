-- ===== src/Samples/Platform.antt =====
-- Samples of the three programs under cmd together.
use iprl_poc.Common.{◌≤◌, List, some, ◌≡◌, codes, arith, length, map, All, ◌^◌}
use iprl_poc.Proto.{ProbingDirective, ForwardingInfoElement}
use iprl_poc.Api.{element_json}
use iprl_poc.Agent.MockProber.Rounds.{ElementsFor}
use iprl_poc.Commands.{OrchestratorFlags, agent_spec_of}
use iprl_poc.Commands.Platform.{Works, Made, platform, flags-platform}
use iprl_poc.Samples.Data.{in_order, zeros, all_zero}
use iprl_poc.Samples.Programs.{one_ip, print_any, agent_flags, generator_flags}

-- The defaults of the flags.
abbrev default_flags : OrchestratorFlags
default_flags = record {
  grpc_addr = codes ":50050";
  http_addr = codes ":80";
  rate = 1;
  retries = 3;
  directive_buffer = 10000;
  element_buffer = 10000;
}

defaults-Works :
    Works
      (2 ^ 32)
      (λ seed. all_zero)
      (λ seed. zeros)
      one_ip
      print_any
      (codes "dev")
      in_order
      in_order
      1000000000
      (codes "a")
      (codes "g")
      (codes "web")
      agent_flags
      generator_flags
      default_flags
      100
defaults-Works = record {
  limit_fits = omega arith;
  agent_buffer = (omega arith, omega arith);
  generator_buffer = (omega arith, omega arith);
  directive_buffer = omega arith;
  element_buffer = omega arith;
  client_buffer = omega arith;
  rate = omega arith;
  ttl_order = (omega arith, omega arith);
  ttl_fits = omega arith;
}

flags-platform_example :
    (ds : List ProbingDirective) × (es : List ForwardingInfoElement) × (platform
        (2 ^ 32)
        (λ seed. all_zero)
        (λ seed. zeros)
        one_ip
        print_any
        (codes "dev")
        in_order
        in_order
        1000000000
        (codes "a")
        (codes "g")
        (codes "web")
        agent_flags
        generator_flags
        default_flags
        100
      ≡ some (map (element_json print_any) es))
    × Made
        (2 ^ 32)
        (λ seed. all_zero)
        (λ seed. zeros)
        one_ip
        print_any
        (codes "dev")
        in_order
        in_order
        1000000000
        (codes "a")
        (codes "g")
        (codes "web")
        agent_flags
        generator_flags
        default_flags
        100
        ds
    × (length ds ≡ 100)
    × All (λ d. (1 ≤ d.near_ttl) × (d.near_ttl ≤ 32)) ds
    × ElementsFor (agent_spec_of one_ip (codes "dev") agent_flags) 1000000000 ds es
flags-platform_example =
    flags-platform (2 ^ 32) (λ seed. all_zero) (λ seed. zeros) one_ip print_any (codes "dev")
      in_order in_order 1000000000 (codes "a") (codes "g") (codes "web") agent_flags generator_flags
      default_flags 100 defaults-Works
