-- ===== src/Proto.antt =====
-- The messages of proto/iprl.proto, in the shape of their Go structs: `Option` is a pointer that may
-- be nil, a `bytes` field is a list of bytes (nil is the empty one), a `double` is its 64-bit pattern,
-- which is only copied, and a timestamp is its nanoseconds since the epoch.
use iprl_poc.Common.{ℕ, List, Option, Bool, Text}
use iprl_poc.Common.GoMap.{Map}
use iprl_poc.Common.Int.{ℤ}

pub data VantagePointProvider : Type 0 where
  provider_unknown gcp aws edgenet : VantagePointProvider

pub data Protocol : Type 0 where
  protocol_unknown icmp tcp udp dccp icmpv6 : Protocol

pub data IpVersion : Type 0 where
  ip_version_4 ip_version_6 : IpVersion

pub data ChangeType : Type 0 where
  withdrawn announced : ChangeType

pub data JustificationType : Type 0 where
  inferred observed : JustificationType

pub record VantagePoint : Type 0 where
  pub name : Text
  pub public_address : List ℕ
  pub asn : Option ℕ
  pub provider : VantagePointProvider

pub record ProbingAgentSpec : Type 0 where
  pub software_version : Text
  pub interface_version : Text
  pub grpc_address : Text
  pub vantage_point : Option VantagePoint
  pub directive_buffer_length : ℕ
  pub orchestrator_address : Text
  pub num_retries : ℕ

pub record ProbingAgentStatus : Type 0 where
  pub uuid : Text
  pub probing_rate_cap : ℕ
  pub tags : Map Text

pub record ProbingDirectiveGeneratorSpec : Type 0 where
  pub software_version : Text
  pub interface_version : Text
  pub grpc_address : Text
  pub protocols : List Protocol
  pub min_ttl : ℕ
  pub max_ttl : ℕ
  pub orchestrator_address : Text
  pub num_retries : ℕ
  pub seed : ℤ

pub record ProbingDirectiveGeneratorStatus : Type 0 where
  pub uuid : Text
  pub probe_generation_rate_per_second_per_agent : ℕ
  pub agent_specs : List ProbingAgentSpec
  pub tags : Map Text

pub record ProbingOrchestratorSpec : Type 0 where
  pub software_version : Text
  pub interface_version : Text
  pub http_address : Text
  pub grpc_address : Text
  pub directive_buffer_length : ℕ
  pub element_buffer_length : ℕ
  pub default_global_probing_rate_cap : ℕ
  pub num_retries : ℕ

pub record ProbingOrchestratorStatus : Type 0 where
  pub global_probing_rate_cap : ℕ

pub record HeaderParameters : Type 0 where
  pub source_port : Option ℕ
  pub destination_port : Option ℕ
  pub type_of_service : Option ℕ
  pub df_flag : Option Bool

pub record ProbingDirective : Type 0 where
  pub vantage_point_name : Text
  pub destination_address : List ℕ
  pub ip_version : IpVersion
  pub protocol : Protocol
  pub header_parameters : Option HeaderParameters
  pub near_ttl : ℕ

pub record MplsLabel : Type 0 where
  pub label : ℕ
  pub tc : ℕ
  pub s : Bool
  pub ttl : ℕ

pub record MplsInfo : Type 0 where
  pub labels : List MplsLabel

-- `oneof spec`; `no_spec` is a request that sets neither.
pub data JoinRequest : Type 0 where
  agent_request : ProbingAgentSpec → JoinRequest
  generator_request : ProbingDirectiveGeneratorSpec → JoinRequest
  no_spec : JoinRequest

-- `oneof status`
pub data JoinResponse : Type 0 where
  agent_response : ProbingAgentStatus → JoinResponse
  generator_response : ProbingDirectiveGeneratorStatus → JoinResponse

pub record RttInfo : Type 0 where
  pub sent_at : Option ℤ
  pub received_at : Option ℤ

pub record MdaParameters : Type 0 where
  pub flow_count : ℤ
  pub confidence : ℕ
  pub max_retries : ℤ
  pub algo_version : Text

pub record ForwardingInfoElement : Type 0 where
  pub vantage_point : Option VantagePoint
  pub flow_id : ℕ
  pub near_ttl : ℕ
  pub near_reply_address : List ℕ
  pub far_reply_address : List ℕ
  pub destination_addr : List ℕ
  pub source_addr : List ℕ
  pub mpls : Option MplsInfo
  pub packet_size : ℤ
  pub near_rtt : Option RttInfo
  pub far_rtt : Option RttInfo
  pub packets_sent : ℕ
  pub packets_received : ℕ
  pub mda : Option MdaParameters
  pub change_type : ChangeType
  pub justification_type : JustificationType
  pub construction_timestamp : Option ℤ
