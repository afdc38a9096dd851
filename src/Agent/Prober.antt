-- ===== src/Agent/Prober.antt =====
-- The prober around the caracal tool, internal/components/agent/caracal_prober.go: directives sent,
-- answers matched in pairs, pairs turned into elements, and old probes dropped. The tool, the clock
-- and package net are outside: `Net` holds the two functions of package net, `now` is the clock in
-- nanoseconds, and a write's or a select's outcome is an argument.
pub mod Matching
pub mod Soundness
pub mod Expiry
pub mod Origins
pub mod Shutdown
pub mod Run
pub mod Reader
pub mod RoundTrip
pub mod Tool
use iprl_poc.Common.{
  ℕ, ◌+◌, ◌-◌, ◌*◌, ◌%◌, ◌^◌, List, [], ◌∷◌, ◌++◌, Option, none, some, Bool, true, false, Text, ltb,
  ◌==◌, if◌then◌else◌, u32_mod,
}
use iprl_poc.Common.Pacing.{second}
use iprl_poc.Common.Int.{ℤ, pos, ◌+ℤ◌, ◌-ℤ◌, ◌*ℤ◌, wrap64, wrap32, to_u32}
use iprl_poc.Common.GoMap.{Map, get, insert, delete}
use iprl_poc.Common.Channel.{Channel, make, sent, send_blocks, send_panics, send, close}
use iprl_poc.Proto.{
  ProbingDirective, HeaderParameters, VantagePoint, ForwardingInfoElement, RttInfo, announced,
  observed,
}
use Tool.{ToolProcess, no_tool, stop_caracal}
use iprl_poc.Agent.Caracal.{
  CaracalResponse, parse_mpls_labels, protocol_to_caracal, make_base_key, port_of, probe_line,
  response_key, read_line,
}

-- `net.IP.String`, and `net.ParseIP(s).To4()` with nil as the empty list.
pub record Net : Type 0 where
  pub ip_string : List ℕ → Text
  pub parse_ip4 : Text → List ℕ

pub record PendingProbe : Type 0 where
  pub directive : ProbingDirective
  pub created_at : ℕ
  pub near_response : Option CaracalResponse
  pub far_response : Option CaracalResponse

-- `written` is what has gone to the tool's standard input, oldest first.
pub record CaracalProber : Type 0 where
  pub in_ch : Channel ProbingDirective
  pub out_ch : Channel ForwardingInfoElement
  pub closed : Bool
  pub vantage_point : Option VantagePoint
  pub pending : Map PendingProbe
  pub match_timeout : ℕ
  pub written : List Text
  pub close_ch : Channel (Unit {0})
  pub tool : ToolProcess

unfoldable pub new_caracal_prober : ℕ → ℕ → Option VantagePoint → CaracalProber
unfolding make
new_caracal_prober buffer timeout vantage = record {
  in_ch = make buffer;
  out_ch = make buffer;
  closed = false;
  vantage_point = vantage;
  pending = [];
  match_timeout = if timeout == 0 then 30 * second else timeout;
  written = [];
  close_ch = make 0;
  tool = no_tool;
}

unfoldable pub far_ttl : ProbingDirective → ℕ
far_ttl d = (d.near_ttl + 1) % u32_mod

unfoldable pub directive_key : Net → ProbingDirective → Text
directive_key net d =
    make_base_key (net.ip_string d.destination_address) (port_of (λ h. h.source_port) d)
      (port_of (λ h. h.destination_port) d) d.protocol

-- The line for one of the two TTLs.
unfoldable pub directive_line : Net → ProbingDirective → ℕ → Text
directive_line net d ttl =
    probe_line (net.ip_string d.destination_address) (port_of (λ h. h.source_port) d)
      (port_of (λ h. h.destination_port) d) ttl (protocol_to_caracal d.protocol)

-- How the two writes to the tool go.
pub data Writes : Type 0 where
  both_written near_fails far_fails : Writes

-- False is the error of a failed write; the probe is registered by then.
unfoldable pub send_directive :
    Net → ℕ → Writes → ProbingDirective → CaracalProber → CaracalProber × Bool
unfolding directive_key directive_line far_ttl
send_directive net now writes d c =
    let probe : PendingProbe = record {
      directive = d;
      created_at = now;
      near_response = none;
      far_response = none;
    } in
    let registered : CaracalProber = record c {
      pending = insert (directive_key net d) probe c.pending;
    } in
    let near_line = directive_line net d d.near_ttl in
    let far_line = directive_line net d (far_ttl d) in
    elim writes [
      | near_fails ↦ (registered, false)
      | far_fails ↦ (record registered { written = c.written ++ near_line ∷ [] }, false)
      | both_written ↦
          (record registered { written = c.written ++ near_line ∷ far_line ∷ [] }, true)
    ]

-- `time.Unix(timestamp, 0)` less the round trip in microseconds, whose product wraps in an int64.
unfoldable pub sent_time : CaracalResponse → ℤ
sent_time r = pos second *ℤ r.capture_timestamp +ℤ wrap64 (wrap64 (pos 0 -ℤ r.rtt) *ℤ pos 1000)

unfoldable pub received_time : CaracalResponse → ℤ
received_time r = pos second *ℤ r.capture_timestamp

abbrev pub rtt_info : CaracalResponse → RttInfo
rtt_info r = record { sent_at = some (sent_time r); received_at = some (received_time r) }

unfoldable pub build_forwarding_info_element :
    Net
    → ℕ
    → Option VantagePoint
    → ProbingDirective
    → CaracalResponse
    → CaracalResponse
    → ForwardingInfoElement
unfolding sent_time received_time
build_forwarding_info_element net now vantage d near far = record {
  vantage_point = vantage;
  flow_id = 0;
  near_ttl = d.near_ttl;
  near_reply_address = net.parse_ip4 near.reply_src_addr;
  far_reply_address = net.parse_ip4 far.reply_src_addr;
  destination_addr = d.destination_address;
  source_addr = net.parse_ip4 near.probe_src_addr;
  mpls = parse_mpls_labels near.reply_mpls_labels;
  packet_size = wrap32 near.reply_size;
  near_rtt = some (rtt_info near);
  far_rtt = some (rtt_info far);
  packets_sent = 2;
  packets_received = 2;
  mda = none;
  change_type = announced;
  justification_type = observed;
  construction_timestamp = some (pos now);
}

-- The answer goes to the slot of its TTL, and nowhere if it has neither.
unfoldable pub fill_slot : CaracalResponse → PendingProbe → PendingProbe
unfolding far_ttl
fill_slot r p =
    if to_u32 r.probe_ttl == p.directive.near_ttl
    then record p { near_response = some r }
    else if to_u32 r.probe_ttl == far_ttl p.directive
    then record p { far_response = some r }
    else p

-- With both answers the probe is done.
unfoldable pub complete :
    Net
    → ℕ
    → Option VantagePoint
    → Text
    → PendingProbe
    → Map PendingProbe
    → Map PendingProbe × Option ForwardingInfoElement
complete net now vantage key p m = elim p.near_response [
  | none ↦ (m, none)
  | some near ↦ elim p.far_response [
    | none ↦ (m, none)
    | some far ↦
        (delete key m, some (build_forwarding_info_element net now vantage p.directive near far))
  ]
]

-- The part of `handleResponse` on the pending probes: the new table, and the element to emit.
unfoldable pub match_response :
    Net
    → ℕ
    → Option VantagePoint
    → CaracalResponse
    → Map PendingProbe
    → Map PendingProbe × Option ForwardingInfoElement
unfolding fill_slot complete
match_response net now vantage r m = elim (get (response_key r) m) [
  | none ↦ (m, none)
  | some p ↦
      let p' = fill_slot r p in
      complete net now vantage (response_key r) p' (insert (response_key r) p' m)
]

pub data Emission : Type 0 where
  nothing_to_emit emitted given_up emission_waits emission_panics : Emission

-- The select on the output channel; `done` says that it takes a Done case.
unfoldable pub emit :
    Bool
    → Option ForwardingInfoElement
    → Channel ForwardingInfoElement
    → Channel ForwardingInfoElement × Emission
emit done none ch = (ch, nothing_to_emit)
emit done (some e) ch = if done then (ch, given_up) else elim (send ch e) [
  | sent ch' ↦ (ch', emitted)
  | send_blocks ↦ (ch, emission_waits)
  | send_panics ↦ (ch, emission_panics)
]

unfoldable pub handle_response :
    Net → ℕ → Bool → CaracalResponse → CaracalProber → CaracalProber × Emission
unfolding match_response emit
handle_response net now done r c =
    let (m, element) = match_response net now c.vantage_point r c.pending in
    let (ch, emission) = emit done element c.out_ch in
    (record c { pending = m; out_ch = ch }, emission)

-- The loop over the pending probes at a tick.
unfoldable pub drop_expired : ℕ → ℕ → Map PendingProbe → Map PendingProbe
drop_expired now timeout [] = []
drop_expired now timeout ((k, p) ∷ m) =
    let rest = drop_expired now timeout m in
    if ltb timeout (now - p.created_at) then rest else (k, p) ∷ rest

unfoldable pub cleanup_expired_probes : ℕ → CaracalProber → CaracalProber
unfolding drop_expired
cleanup_expired_probes now c = record c { pending = drop_expired now c.match_timeout c.pending }

-- `Close`; none is the panic of closing a closed channel.
unfoldable pub close_prober : CaracalProber → Option CaracalProber
close_prober c = if c.closed then some c else elim (close c.close_ch) [
  | none ↦ none
  | some done ↦ elim (close c.out_ch) [
    | none ↦ none
    | some ch ↦
        some (record c { closed = true; close_ch = done; tool = stop_caracal c.tool; out_ch = ch })
  ]
]
