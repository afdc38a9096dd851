-- ===== src/Commands.antt =====
-- The three programs under cmd: the specs that their flags make. A flag of type uint is a number, of
-- which `uint32(...)` keeps the low 32 bits. `version` is set at build time, `to4` is
-- `net.ParseIP(...).To4()`.
pub mod Pipeline
pub mod Route
pub mod Turns
pub mod Circle
pub mod Ends
pub mod Boot
pub mod Platform
use iprl_poc.Common.{ℕ, ◌%◌, List, some, Text, u32_mod}
use iprl_poc.Common.Int.{pos, wrap64}
use iprl_poc.Proto.{
  ProbingAgentSpec, VantagePoint, ProbingDirectiveGeneratorSpec, ProbingOrchestratorSpec,
}
use iprl_poc.Util.{parse_provider, parse_protocols}

pub record AgentFlags : Type 0 where
  pub address : Text
  pub po_addr : Text
  pub buffer_length : ℕ
  pub vp_ip : Text
  pub vp_name : Text
  pub vp_asn : ℕ
  pub vp_provider : Text
  pub seed : ℕ
  pub mock_buffer : ℕ

pub record GeneratorFlags : Type 0 where
  pub address : Text
  pub po_addr : Text
  pub min_ttl : ℕ
  pub max_ttl : ℕ
  pub retries : ℕ
  pub protocols : Text
  pub seed : ℕ
  pub mock_buffer : ℕ

pub record OrchestratorFlags : Type 0 where
  pub grpc_addr : Text
  pub http_addr : Text
  pub rate : ℕ
  pub retries : ℕ
  pub directive_buffer : ℕ
  pub element_buffer : ℕ

-- `uint32(n)`
abbrev pub u32 : ℕ → ℕ
u32 n = n % u32_mod

unfoldable pub agent_spec_of : (Text → List ℕ) → Text → AgentFlags → ProbingAgentSpec
agent_spec_of to4 version f = record {
  software_version = version;
  interface_version = version;
  grpc_address = f.address;
  vantage_point = some (record {
    name = f.vp_name;
    public_address = to4 f.vp_ip;
    asn = some (u32 f.vp_asn);
    provider = parse_provider f.vp_provider;
  });
  directive_buffer_length = u32 f.buffer_length;
  orchestrator_address = f.po_addr;
  num_retries = 0;
}

unfoldable pub generator_spec_of : Text → GeneratorFlags → ProbingDirectiveGeneratorSpec
generator_spec_of version f = record {
  software_version = version;
  interface_version = version;
  grpc_address = f.address;
  protocols = parse_protocols f.protocols;
  min_ttl = u32 f.min_ttl;
  max_ttl = u32 f.max_ttl;
  orchestrator_address = f.po_addr;
  num_retries = u32 f.retries;
  seed = wrap64 (pos f.seed);
}

unfoldable pub orchestrator_spec_of : Text → OrchestratorFlags → ProbingOrchestratorSpec
orchestrator_spec_of version f = record {
  software_version = version;
  interface_version = version;
  http_address = f.http_addr;
  grpc_address = f.grpc_addr;
  directive_buffer_length = u32 f.directive_buffer;
  element_buffer_length = u32 f.element_buffer;
  default_global_probing_rate_cap = u32 f.rate;
  num_retries = u32 f.retries;
}
