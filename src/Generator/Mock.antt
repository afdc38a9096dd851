-- ===== src/Generator/Mock.antt =====
-- internal/components/generator/mock_directive_generator.go: the random directive. the
-- draws of math/rand are numbered.
pub mod Bounds
pub mod Rounds
pub mod Run
use iprl_poc.Common.{
  ℕ, suc, ◌+◌, ◌-◌, ◌%◌, ◌<◌, List, [], ◌∷◌, Option, none, some, length, get_elem?, ltb, ◌==◌,
  if◌then◌else◌, u32_mod, Bool, true, false, ◌||◌,
}
use iprl_poc.Common.Draws.{Rng, draw, ◌>>=◌}
use iprl_poc.Proto.{
  ProbingAgentSpec, ProbingDirectiveGeneratorSpec, ProbingDirectiveGeneratorStatus,
  ProbingDirective, HeaderParameters, Protocol, icmp, tcp, udp, ip_version_4, VantagePoint,
}

-- The TTL of the spec's range, in uint32 arithmetic.
unfoldable pub choose_ttl : Rng → ProbingDirectiveGeneratorSpec → ℕ → Option (ℕ × ℕ)
choose_ttl rng spec i =
    if ltb spec.min_ttl spec.max_ttl
    then (do
      (k, j) ← draw rng ((spec.max_ttl - spec.min_ttl + 1) % u32_mod) i
      some ((spec.min_ttl + k) % u32_mod, j))
    else some (spec.min_ttl, i)

unfoldable pub choose_protocol : Rng → List Protocol → ℕ → Option (Protocol × ℕ)
choose_protocol rng [] i = some (icmp, i)
choose_protocol rng (p ∷ ps) i = do
  (k, j) ← draw rng (length (p ∷ ps)) i
  q ← get_elem? (p ∷ ps) k
  some (q, j)

abbrev pub has_ports : Protocol → Bool
has_ports tcp = true
has_ports udp = true
has_ports _ = false

unfoldable pub choose_port : Rng → Protocol → ℕ → Option (ℕ × ℕ)
choose_port rng p i =
    if has_ports p then (do (k, j) ← draw rng 65535 i; some (1 + k, j)) else some (0, i)

-- Four random bytes.
unfoldable pub choose_address : Rng → ℕ → Option (List ℕ × ℕ)
choose_address rng i = do
  (a, i₁) ← draw rng 256 i
  (b, i₂) ← draw rng 256 i₁
  (c, i₃) ← draw rng 256 i₂
  (d, i₄) ← draw rng 256 i₃
  some (a ∷ b ∷ c ∷ d ∷ [], i₄)

-- The directive from the agents of the status; none is a panic, in a draw, for an index past the end
-- or for an agent without vantage point.
unfoldable pub random_directive :
    Rng → ProbingDirectiveGeneratorSpec → List ProbingAgentSpec → ℕ → Option (ProbingDirective × ℕ)
random_directive rng spec agents i₀ = do
  (k, i₁) ← draw rng (length agents) i₀
  agent ← get_elem? agents k
  (ip, i₂) ← choose_address rng i₁
  (ttl, i₃) ← choose_ttl rng spec i₂
  (protocol, i₄) ← choose_protocol rng spec.protocols i₃
  (dst_port, i₅) ← choose_port rng protocol i₄
  vantage ← agent.vantage_point
  (src, i₆) ← draw rng 30000 i₅
  some (
    record {
      vantage_point_name = vantage.name;
      destination_address = ip;
      ip_version = ip_version_4;
      protocol = protocol;
      header_parameters = some (record {
        source_port = some (30000 + src);
        destination_port = some dst_port;
        type_of_service = some 0;
        df_flag = some false;
      });
      near_ttl = ttl;
    },
    i₆,
  )

pub data Generated : Type 0 where
  -- nil, after a sleep
  no_directive : Generated
  directive : ProbingDirective → ℕ → Generated
  generate_panics : Generated

abbrev pub to_generated : Option (ProbingDirective × ℕ) → Generated
to_generated none = generate_panics
to_generated (some (d, i)) = directive d i

-- The test for a missing or empty list of agents.
abbrev pub from_agents : Rng → ProbingDirectiveGeneratorSpec → List ProbingAgentSpec → ℕ → Generated
from_agents rng spec [] i = no_directive
from_agents rng spec (a ∷ rest) i = to_generated (random_directive rng spec (a ∷ rest) i)

unfoldable pub generate_directive :
    Rng → ProbingDirectiveGeneratorSpec → Option ProbingDirectiveGeneratorStatus → ℕ → Generated
generate_directive rng spec none i = no_directive
generate_directive rng spec (some status) i = from_agents rng spec status.agent_specs i
