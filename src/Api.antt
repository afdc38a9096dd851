-- ===== src/Api.antt =====
-- internal/api/types.go: the view of an element that is sent to HTTP clients, and the helpers of
-- internal/util/util.go that it uses. A time is its nanoseconds since the epoch; printing an IP
-- address is an argument.
pub mod Views
pub mod Config
use iprl_poc.Common.{ℕ, ◌*◌, ◌-◌, List, [], ◌∷◌, Option, none, some, Bool, Text, codes, map}
use iprl_poc.Common.Int.{ℤ, pos, negsuc}
use iprl_poc.Proto.{
  VantagePointProvider, provider_unknown, gcp, aws, edgenet, ChangeType, withdrawn, announced,
  JustificationType, inferred, observed, VantagePoint, MplsLabel, MplsInfo, RttInfo, MdaParameters,
  ForwardingInfoElement,
}

-- The anonymous struct of the vantage point.
pub record VantagePointJson : Type 0 where
  pub name : Text
  pub public_address : Text
  pub asn : Option ℕ
  pub provider : Text

pub record RttInfoJson : Type 0 where
  pub sent_at : ℤ
  pub received_at : ℤ

pub record MplsLabelJson : Type 0 where
  pub label : ℕ
  pub tc : ℕ
  pub s : Bool
  pub ttl : ℕ

pub record MplsInfoJson : Type 0 where
  pub labels : List MplsLabelJson

pub record MdaJson : Type 0 where
  pub flow_count : ℤ
  pub confidence : ℕ
  pub max_retries : ℤ
  pub algo_version : Text

pub record ForwardingInfoElementJson : Type 0 where
  pub vantage_point : VantagePointJson
  pub flow_id : ℕ
  pub near_ttl : ℕ
  pub near_reply_address : Text
  pub far_reply_address : Text
  pub destination_addr : Text
  pub source_addr : Text
  pub packet_size : ℤ
  pub packets_sent : ℕ
  pub packets_received : ℕ
  pub near_rtt : Option RttInfoJson
  pub far_rtt : Option RttInfoJson
  pub mpls : Option MplsInfoJson
  pub mda : Option MdaJson
  pub change_type : Text
  pub justification_type : Text
  pub construction_time : ℤ

-- `IpBytesToString`; `print_ip` prints an address that is not empty, an IPv4 one also where it is
-- written in 16 bytes.
unfoldable pub ip_bytes_to_string : (List ℕ → Text) → List ℕ → Text
ip_bytes_to_string print_ip [] = []
ip_bytes_to_string print_ip (b ∷ bs) = print_ip (b ∷ bs)

-- The zero time, at the start of the year 1.
abbrev pub zero_time : ℤ
zero_time = negsuc (62135596800 * 1000000000 - 1)

unfoldable pub ts_to_time : Option ℤ → ℤ
ts_to_time none = zero_time
ts_to_time (some t) = t

-- The names of the enums in proto/iprl.proto, which `String` gives.
unfoldable pub provider_name : VantagePointProvider → Text
provider_name provider_unknown = codes "VANTAGE_POINT_PROVIDER_UNKNOWN"
provider_name gcp = codes "VANTAGE_POINT_PROVIDER_GCP"
provider_name aws = codes "VANTAGE_POINT_PROVIDER_AWS"
provider_name edgenet = codes "VANTAGE_POINT_PROVIDER_EDGENET"

unfoldable pub change_name : ChangeType → Text
change_name withdrawn = codes "WITHDRAWN"
change_name announced = codes "ANNOUNCED"

unfoldable pub justification_name : JustificationType → Text
justification_name inferred = codes "INFERRED"
justification_name observed = codes "OBSERVED"

unfoldable pub vantage_point_json : (List ℕ → Text) → Option VantagePoint → VantagePointJson
unfolding ip_bytes_to_string provider_name
vantage_point_json print_ip none = record {
  name = [];
  public_address = [];
  asn = none;
  provider = [];
}
vantage_point_json print_ip (some vp) = record {
  name = vp.name;
  public_address = ip_bytes_to_string print_ip vp.public_address;
  asn = vp.asn;
  provider = provider_name vp.provider;
}

unfoldable pub rtt_json : Option RttInfo → Option RttInfoJson
unfolding ts_to_time
rtt_json none = none
rtt_json (some r) =
    some (record { sent_at = ts_to_time r.sent_at; received_at = ts_to_time r.received_at })

abbrev pub label_json : MplsLabel → MplsLabelJson
label_json l = record { label = l.label; tc = l.tc; s = l.s; ttl = l.ttl }

unfoldable pub mpls_json : Option MplsInfo → Option MplsInfoJson
mpls_json none = none
mpls_json (some info) = some (record { labels = map label_json info.labels })

unfoldable pub mda_json : Option MdaParameters → Option MdaJson
mda_json none = none
mda_json (some m) = some (record {
  flow_count = m.flow_count;
  confidence = m.confidence;
  max_retries = m.max_retries;
  algo_version = m.algo_version;
})

unfoldable pub element_json : (List ℕ → Text) → ForwardingInfoElement → ForwardingInfoElementJson
unfolding ip_bytes_to_string ts_to_time change_name justification_name vantage_point_json rtt_json
    mpls_json mda_json
element_json print_ip e = record {
  vantage_point = vantage_point_json print_ip e.vantage_point;
  flow_id = e.flow_id;
  near_ttl = e.near_ttl;
  near_reply_address = ip_bytes_to_string print_ip e.near_reply_address;
  far_reply_address = ip_bytes_to_string print_ip e.far_reply_address;
  destination_addr = ip_bytes_to_string print_ip e.destination_addr;
  source_addr = ip_bytes_to_string print_ip e.source_addr;
  packet_size = e.packet_size;
  packets_sent = e.packets_sent;
  packets_received = e.packets_received;
  near_rtt = rtt_json e.near_rtt;
  far_rtt = rtt_json e.far_rtt;
  mpls = mpls_json e.mpls;
  mda = mda_json e.mda;
  change_type = change_name e.change_type;
  justification_type = justification_name e.justification_type;
  construction_time = ts_to_time e.construction_timestamp;
}

-- A nil element has no view.
unfoldable pub from_proto :
    (List ℕ → Text) → Option ForwardingInfoElement → Option ForwardingInfoElementJson
unfolding element_json
from_proto print_ip none = none
from_proto print_ip (some e) = some (element_json print_ip e)
