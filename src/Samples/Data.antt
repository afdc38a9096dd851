-- ===== src/Samples/Data.antt =====
-- The messages and states that the samples share.
use mathlib.Core.List.{Nodup-cons, Nodup-nil}
use mathlib.Core.Logic.Or
use iprl_poc.Common.{
  Nodup, mem-cons, not-mem-nil, ◌≢◌, ℕ, List, [], ◌∷◌, none, some, true, false, Text, codes,
}
use iprl_poc.Common.GoMap.{Range}
use iprl_poc.Common.Channel.{Channel}
use iprl_poc.Common.Int.{pos}
use mathlib.Core.List.Perm
use iprl_poc.Proto.{
  VantagePoint, gcp, Protocol, icmp, udp, ip_version_4, ProbingAgentSpec, ProbingAgentStatus,
  ProbingDirectiveGeneratorSpec, ProbingDirectiveGeneratorStatus, ProbingOrchestratorSpec,
  ProbingDirective, ForwardingInfoElement, announced, observed,
}
use iprl_poc.Orchestrator.Manager.{
  OrchestratorManager, new_orchestrator_manager, join_agent, join_generator,
}
use iprl_poc.Agent.Manager.{AgentManager}
use iprl_poc.Agent.Caracal.{CaracalResponse}
use iprl_poc.Agent.Prober.{Net, CaracalProber, new_caracal_prober}
use iprl_poc.Common.Draws.{Rng}
use iprl_poc.Agent.MockProber.{Draws}

-- `range` in the order of insertion.
abbrev pub in_order : {V : Type 0} → Range V
in_order = record { visit = λ m. m; visit-perm = λ m. Perm.refl m }

abbrev pub paris : VantagePoint
paris = record {
  name = codes "paris";
  public_address = 10 ∷ 0 ∷ 0 ∷ 1 ∷ [];
  asn = none;
  provider = gcp;
}

abbrev pub agent_at : Text → ProbingAgentSpec
agent_at address = record {
  software_version = codes "1.0";
  interface_version = codes "1";
  grpc_address = address;
  vantage_point = some paris;
  directive_buffer_length = 16;
  orchestrator_address = codes "orchestrator:50050";
  num_retries = 3;
}

abbrev pub first_agent : ProbingAgentSpec
first_agent = agent_at (codes "agent:50051")

abbrev pub generator_spec : ProbingDirectiveGeneratorSpec
generator_spec = record {
  software_version = codes "1.0";
  interface_version = codes "1";
  grpc_address = codes "generator:50052";
  protocols = icmp ∷ udp ∷ [];
  min_ttl = 1;
  max_ttl = 30;
  orchestrator_address = codes "orchestrator:50050";
  num_retries = 3;
  seed = pos 42;
}

abbrev pub generator_status : List ProbingAgentSpec → ProbingDirectiveGeneratorStatus
generator_status agents = record {
  uuid = codes "g";
  probe_generation_rate_per_second_per_agent = 10;
  agent_specs = agents;
  tags = [];
}

abbrev pub orchestrator_spec : ProbingOrchestratorSpec
orchestrator_spec = record {
  software_version = codes "1.0";
  interface_version = codes "1";
  http_address = codes ":8080";
  grpc_address = codes ":50050";
  directive_buffer_length = 2;
  element_buffer_length = 2;
  default_global_probing_rate_cap = 10;
  num_retries = 3;
}

abbrev pub empty_cluster : OrchestratorManager
empty_cluster = new_orchestrator_manager orchestrator_spec

-- A generator has joined, then an agent.
abbrev pub with_generator : OrchestratorManager
with_generator = (join_generator in_order in_order (codes "g") generator_spec empty_cluster).0

abbrev pub small_cluster : OrchestratorManager
small_cluster = (join_agent (codes "a") first_agent with_generator).0

abbrev pub new_agent : AgentManager
new_agent = record { current_spec = some first_agent; current_status = none }

abbrev pub directive_of : Protocol → ℕ → ProbingDirective
directive_of protocol ttl = record {
  vantage_point_name = codes "paris";
  destination_address = 8 ∷ 8 ∷ 8 ∷ 8 ∷ [];
  ip_version = ip_version_4;
  protocol = protocol;
  header_parameters = some (record {
    source_port = some 30000;
    destination_port = some 53;
    type_of_service = none;
    df_flag = none;
  });
  near_ttl = ttl;
}

abbrev pub udp_directive : ProbingDirective
udp_directive = directive_of udp 5

-- A resolver that knows one address.
abbrev pub one_address : Net
one_address = record { ip_string = λ bytes. codes "8.8.8.8"; parse_ip4 = λ s. 8 ∷ 8 ∷ 8 ∷ 8 ∷ [] }

abbrev pub answer_at : ℕ → CaracalResponse
answer_at ttl = record {
  capture_timestamp = pos 1700000000;
  probe_protocol = pos 17;
  probe_src_addr = codes "10.0.0.1";
  probe_dst_addr = codes "8.8.8.8";
  probe_src_port = pos 30000;
  probe_dst_port = pos 53;
  probe_ttl = pos ttl;
  quoted_ttl = pos 1;
  reply_src_addr = codes "192.0.2.7";
  reply_protocol = pos 1;
  reply_icmp_type = pos 11;
  reply_icmp_code = pos 0;
  reply_ttl = pos 250;
  reply_size = pos 56;
  reply_mpls_labels = codes "[]";
  rtt = pos 120;
  round = pos 1;
}

abbrev pub new_prober : CaracalProber
new_prober = new_caracal_prober 2 0 (some paris)

abbrev pub some_element : ForwardingInfoElement
some_element = record {
  vantage_point = some paris;
  flow_id = 0;
  near_ttl = 5;
  near_reply_address = [];
  far_reply_address = [];
  destination_addr = [];
  source_addr = [];
  mpls = none;
  packet_size = pos 56;
  near_rtt = none;
  far_rtt = none;
  packets_sent = 2;
  packets_received = 2;
  mda = none;
  change_type = announced;
  justification_type = observed;
  construction_timestamp = none;
}

-- Channels that are open, with room for two.
abbrev pub queue_of {ℓ} : {A : Type ℓ} → List A → Channel A
queue_of vs = record { capacity = 2; buffer = vs; is_closed = false }

-- Draws of zero.
abbrev pub zeros : Rng
zeros = record { intn = λ i n. 0; intn-lt = λ i n h. h }

-- Draws of zero that add both labels and parameters.
abbrev pub all_zero : Draws
all_zero = record { rng = zeros; uint64 = λ i. 0; below_tenths = λ i n. true; confidence = λ i. 0 }

abbrev pub icmp_directive : ProbingDirective
icmp_directive = directive_of icmp 9

abbrev pub agent_status : ProbingAgentStatus
agent_status = record { uuid = codes "a"; probing_rate_cap = 10; tags = [] }

pub Nodup-two : (x y : Text) → x ≢ y → Nodup (x ∷ y ∷ [])
Nodup-two x y n =
    let no_proof : IsProp ⊥ = hlevel in
    Nodup-cons.1 (
      (λ m. Or.elim no_proof (mem-cons.0 m) n (λ later. absurd (not-mem-nil later))),
      Nodup-cons.1 ((λ m. absurd (not-mem-nil m)), Nodup-nil),
    )
