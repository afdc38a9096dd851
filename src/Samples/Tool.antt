-- ===== src/Samples/Tool.antt =====
-- Samples of the caracal prober and its text protocol, internal/components/agent/caracal_prober.go,
-- and of the command line's words, internal/util/util.go.
use iprl_poc.Common.{
  List, [], ◌∷◌, none, some, true, false, ◌≡◌, ◌≢◌, refl, Text, codes, arith, All, ite, text_eq,
  map,
}
use iprl_poc.Common.Int.{to_u32}
use iprl_poc.Common.GoMap.{get}
use iprl_poc.Proto.{udp, dccp, ProbingDirective}
use iprl_poc.Strings.{join, has_prefix}
use iprl_poc.Agent.Caracal.{
  make_base_key, response_key, caracal_to_protocol, parse_mpls_labels, protocol_of_number,
}
use iprl_poc.Agent.Caracal.Keys.{response_key-ne-dccp}
use iprl_poc.Agent.Caracal.Lines.{parse_mpls_labels-line}
use iprl_poc.Agent.Caracal.RoundTrip.{IsPrintable, response_line, parse_caracal_response-line}
use iprl_poc.Agent.Prober.{
  CaracalProber, both_written, far_ttl, directive_key, send_directive,
  build_forwarding_info_element, match_response, handle_response,
}
use iprl_poc.Agent.Prober.Matching.{Answers, fresh_probe, Answers-emit}
use iprl_poc.Agent.Prober.Soundness.{Origin}
use iprl_poc.Agent.Prober.Origins.{start, sends, reads, Reach-Origin}
use iprl_poc.Util.{parse_protocols}
use iprl_poc.Util.Laws.{word_of, parse_protocols-join}
use iprl_poc.Common.{text_eq}
use iprl_poc.Common.Int.{to_u32}
use iprl_poc.Agent.Caracal.{protocol_of_number}
use iprl_poc.Agent.Prober.Reader.{
  Printed, answer, comment, output_line, handle_all, read_caracal_output,
  read_caracal_output-handle_all,
}
use iprl_poc.Samples.Data.{one_address, udp_directive, answer_at, new_prober, paris}

pub near_answer : Answers one_address udp_directive 5 (answer_at 5)
unfolding response_key directive_key caracal_to_protocol protocol_of_number to_u32
near_answer = record { same_key = refl; same_ttl = ground arith }

pub far_answer : Answers one_address udp_directive (far_ttl udp_directive) (answer_at 6)
unfolding response_key directive_key caracal_to_protocol protocol_of_number to_u32 far_ttl
far_answer = record { same_key = refl; same_ttl = ground arith }

Answers-emit_example :
    let m = (send_directive one_address 0 both_written udp_directive new_prober).0.pending in
    let first = match_response one_address 1 (some paris) (answer_at 6) m in
    let last = match_response one_address 2 (some paris) (answer_at 5) first.0 in
    (first.1 ≡ none)
    × (last.1
        ≡ some (
            build_forwarding_info_element one_address 2
              (some paris)
              udp_directive
              (answer_at 5)
              (answer_at 6)))
    × ((k : Text)
        → get k last.0
          ≡ ite
              (text_eq (directive_key one_address udp_directive) k)
              none
              (get k new_prober.pending))
Answers-emit_example =
    Answers-emit false one_address udp_directive new_prober both_written (answer_at 5) (answer_at 6)
      0 1 2 (some paris) (omega arith) near_answer far_answer

-- The prober after one directive and its two answers.
abbrev IsSent : ProbingDirective → Type 0
IsSent d = d ≡ udp_directive

abbrev asked : CaracalProber
asked = (send_directive one_address 0 both_written udp_directive new_prober).0

abbrev half_answered : CaracalProber
half_answered = (handle_response one_address 1 false (answer_at 5) asked).0

abbrev answered : CaracalProber
answered = (handle_response one_address 2 false (answer_at 6) half_answered).0

Reach-Origin_example : All (Origin one_address IsSent) answered.out_ch.buffer
Reach-Origin_example = Reach-Origin one_address IsSent (
    reads
      (reads (sends (start 2 0 (some paris)) 0 both_written udp_directive refl) 1 false
        (answer_at 5))
      2 false (answer_at 6))

abbrev waiting : CaracalProber
waiting = record new_prober { pending = (codes "k", fresh_probe 0 udp_directive) ∷ [] }

response_key-ne-dccp_example :
    response_key (answer_at 5) ≢ make_base_key (codes "8.8.8.8") 30000 53 dccp
response_key-ne-dccp_example = response_key-ne-dccp (answer_at 5) (codes "8.8.8.8") 30000 53

pub print_near : IsPrintable (answer_at 5)
unfolding has_prefix
print_near = record {
  capture_timestamp = omega arith;
  probe_protocol = omega arith;
  probe_src_addr = (ground arith, refl);
  probe_dst_addr = (ground arith, refl);
  probe_src_port = omega arith;
  probe_dst_port = omega arith;
  probe_ttl = omega arith;
  quoted_ttl = omega arith;
  reply_src_addr = (ground arith, refl);
  reply_protocol = omega arith;
  reply_icmp_type = omega arith;
  reply_icmp_code = omega arith;
  reply_ttl = omega arith;
  reply_size = omega arith;
  reply_mpls_labels = ground arith;
  rtt = omega arith;
  round = omega arith;
}

pub print_far : IsPrintable (answer_at 6)
unfolding has_prefix
print_far = record {
  capture_timestamp = omega arith;
  probe_protocol = omega arith;
  probe_src_addr = (ground arith, refl);
  probe_dst_addr = (ground arith, refl);
  probe_src_port = omega arith;
  probe_dst_port = omega arith;
  probe_ttl = omega arith;
  quoted_ttl = omega arith;
  reply_src_addr = (ground arith, refl);
  reply_protocol = omega arith;
  reply_icmp_type = omega arith;
  reply_icmp_code = omega arith;
  reply_ttl = omega arith;
  reply_size = omega arith;
  reply_mpls_labels = ground arith;
  rtt = omega arith;
  round = omega arith;
}

-- The tool prints a comment, and then an answer.
abbrev printed : List Printed
printed = comment 7 (codes " caracal") ∷ answer 8 true false (answer_at 5) ∷ []

read_caracal_output-handle_all_example :
    read_caracal_output one_address (map output_line printed) new_prober
    ≡ handle_all one_address printed new_prober
read_caracal_output-handle_all_example =
    read_caracal_output-handle_all one_address printed new_prober (print_near, tt)

parse_mpls_labels-line_example : parse_mpls_labels (answer_at 5).reply_mpls_labels ≡ none
parse_mpls_labels-line_example =
    parse_mpls_labels-line (response_line true (answer_at 5)) (answer_at 5)
      (parse_caracal_response-line true (answer_at 5) print_near)

parse_protocols-join_example :
    parse_protocols (join b',' (map word_of (udp ∷ dccp ∷ []))) ≡ udp ∷ dccp ∷ []
parse_protocols-join_example = parse_protocols-join udp (dccp ∷ []) ((λ e. cc), ((λ e. cc), tt))
