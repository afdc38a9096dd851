-- ===== src/Agent/Caracal.antt =====
-- The text protocol of the caracal tool, internal/components/agent/caracal_prober.go: its output
-- lines, its protocol names and numbers, and the keys that match answers to directives.
pub mod Keys
pub mod Lines
pub mod RoundTrip
pub mod Reading
use iprl_poc.Common.{
  ℕ, List, [], ◌∷◌, ◌++◌, Option, none, some, Bool, true, false, Text, codes, map, length, ltb,
  ◌==◌, ite, text_eq, if◌then◌else◌, get_or, ◌||◌, ◌-◌, ◌^◌,
}
use iprl_poc.Common.Int.{ℤ, pos, negsuc, to_u32}
use iprl_poc.Strings.{split, has_prefix, trim_prefix, trim, trim_space}
use iprl_poc.Strconv.{decimal, parse_int, parse_uint}
use iprl_poc.Proto.{
  Protocol, protocol_unknown, icmp, tcp, udp, dccp, icmpv6, MplsLabel, MplsInfo, HeaderParameters,
  ProbingDirective,
}

pub record CaracalResponse : Type 0 where
  pub capture_timestamp : ℤ
  pub probe_protocol : ℤ
  pub probe_src_addr : Text
  pub probe_dst_addr : Text
  pub probe_src_port : ℤ
  pub probe_dst_port : ℤ
  pub probe_ttl : ℤ
  pub quoted_ttl : ℤ
  pub reply_src_addr : Text
  pub reply_protocol : ℤ
  pub reply_icmp_type : ℤ
  pub reply_icmp_code : ℤ
  pub reply_ttl : ℤ
  pub reply_size : ℤ
  pub reply_mpls_labels : Text
  pub rtt : ℤ
  pub round : ℤ

abbrev pub mapped_prefix : Text
mapped_prefix = codes "::ffff:"

unfoldable pub clean_ipv4 : Text → Text
clean_ipv4 addr = if has_prefix addr mapped_prefix then trim_prefix addr mapped_prefix else addr

-- `fields[i]`; an index past the end is not reached, as the length is tested first.
abbrev pub field : List Text → ℕ → Text
field fields i = get_or fields i []

-- The response that the fields of a line make.
unfoldable pub response_of : List Text → CaracalResponse
unfolding clean_ipv4
response_of fields = record {
  capture_timestamp = parse_int (field fields 0);
  probe_protocol = parse_int (field fields 1);
  probe_src_addr = clean_ipv4 (field fields 2);
  probe_dst_addr = clean_ipv4 (field fields 3);
  probe_src_port = parse_int (field fields 4);
  probe_dst_port = parse_int (field fields 5);
  probe_ttl = parse_int (field fields 6);
  quoted_ttl = parse_int (field fields 7);
  reply_src_addr = clean_ipv4 (field fields 8);
  reply_protocol = parse_int (field fields 9);
  reply_icmp_type = parse_int (field fields 10);
  reply_icmp_code = parse_int (field fields 11);
  reply_ttl = parse_int (field fields 12);
  reply_size = parse_int (field fields 13);
  reply_mpls_labels = field fields 14;
  rtt = parse_int (field fields 15);
  round = parse_int (field fields 16);
}

-- None is the error of a line with fewer than 17 fields.
unfoldable pub parse_caracal_response : Text → Option CaracalResponse
unfolding response_of
parse_caracal_response line =
    let fields = split b',' line in
    if ltb (length fields) 17 then none else some (response_of fields)

abbrev pub u32_max : ℕ
u32_max = 2 ^ 32 - 1

-- The label that the parts of one entry make.
unfoldable pub label_of : List Text → MplsLabel
label_of parts = record {
  label = parse_uint u32_max (field parts 0);
  tc = parse_uint u32_max (field parts 1);
  s = ite (text_eq (field parts 2) (codes "1")) true false;
  ttl = parse_uint u32_max (field parts 3);
}

-- The loop over the entries; one of fewer than four parts is passed over.
unfoldable pub mpls_labels : List Text → List MplsLabel
unfolding label_of
mpls_labels [] = []
mpls_labels (e ∷ es) =
    let parts = split b',' e in
    let rest = mpls_labels es in if ltb (length parts) 4 then rest else label_of parts ∷ rest

abbrev pub is_bracket : ℕ → Bool
is_bracket c = c == b'[' || c == b']'

-- None is nil, for no label.
unfoldable pub labels_found : List MplsLabel → Option MplsInfo
labels_found [] = none
labels_found (l ∷ ls) = some (record { labels = l ∷ ls })

unfoldable pub parse_mpls_labels : Text → Option MplsInfo
unfolding mpls_labels labels_found
parse_mpls_labels s =
    let inner = trim is_bracket s in
    if length inner == 0 then none else labels_found (mpls_labels (split b'|' inner))

unfoldable pub protocol_to_caracal : Protocol → Text
protocol_to_caracal icmp = codes "icmp"
protocol_to_caracal tcp = codes "tcp"
protocol_to_caracal udp = codes "udp"
protocol_to_caracal icmpv6 = codes "icmp6"
protocol_to_caracal _ = codes "icmp"

unfoldable pub protocol_of_number : ℕ → Protocol
protocol_of_number p =
    if p == 1
    then icmp
    else if p == 6
    then tcp
    else if p == 17
    then udp
    else if p == 58
    then icmpv6
    else protocol_unknown

unfoldable pub caracal_to_protocol : ℤ → Protocol
unfolding protocol_of_number
caracal_to_protocol (pos p) = protocol_of_number p
caracal_to_protocol (negsuc p) = protocol_unknown

-- The numbers of the enum in proto/iprl.proto, which `%d` prints.
unfoldable pub protocol_number : Protocol → ℕ
protocol_number protocol_unknown = 0
protocol_number icmp = 1
protocol_number tcp = 6
protocol_number udp = 17
protocol_number dccp = 33
protocol_number icmpv6 = 58

-- `%s:%d:%d:%d`
unfoldable pub make_base_key : Text → ℕ → ℕ → Protocol → Text
make_base_key dst_addr src_port dst_port protocol =
    ((dst_addr ++ b':' ∷ decimal src_port) ++ b':' ∷ decimal dst_port)
    ++ b':' ∷ decimal (protocol_number protocol)

-- A port of the optional header parameters, 0 where it is not set.
abbrev pub port_of : (HeaderParameters → Option ℕ) → ProbingDirective → ℕ
port_of f d = elim d.header_parameters [ none ↦ 0 | some h ↦ elim (f h) [ none ↦ 0 | some p ↦ p ] ]

-- `%s,%d,%d,%d,%s\n`
unfoldable pub probe_line : Text → ℕ → ℕ → ℕ → Text → Text
probe_line dst_addr src_port dst_port ttl protocol =
    dst_addr
    ++ b','
      ∷ (decimal src_port
          ++ b',' ∷ (decimal dst_port ++ b',' ∷ (decimal ttl ++ b',' ∷ (protocol ++ b'\n' ∷ []))))

-- The key under which an answer is looked up.
unfoldable pub response_key : CaracalResponse → Text
unfolding make_base_key caracal_to_protocol
response_key r =
    make_base_key r.probe_dst_addr (to_u32 r.probe_src_port) (to_u32 r.probe_dst_port)
      (caracal_to_protocol r.probe_protocol)

-- `readCaracalOutput` passes over comments and blank lines, and over lines that do not parse.
unfoldable pub read_line : Text → Option CaracalResponse
unfolding parse_caracal_response
read_line line =
    if has_prefix line (codes "#") || length (trim_space line) == 0
    then none
    else parse_caracal_response line
