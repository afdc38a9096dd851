-- ===== src/Samples/Journeys.antt =====
-- Samples of ways through several parts: a Join that reaches a generator, and a probe through
-- internal/components/agent/caracal_prober.go.
use mathlib.Core.List.Perm
use iprl_poc.Common.{
  ℕ, List, [], ◌∷◌, ◌++◌, none, some, true, false, ◌≡◌, refl, arith, codes, map, Text, text_eq, ite,
  ok, Result,
}
use iprl_poc.Common.GoMap.{Map, get}
use iprl_poc.Common.Channel.{make}
use iprl_poc.Orchestrator.Store.{append_spec, with_agent_specs}
use iprl_poc.Orchestrator.Manager.{GeneratorNotice}
use iprl_poc.Generator.Manager.{GeneratorManager, new_generator_manager}
use iprl_poc.Agent.Prober.{
  both_written, new_caracal_prober, directive_key, send_directive, build_forwarding_info_element,
}
use iprl_poc.Agent.Prober.Reader.{output_line, reader_scans, read_caracal_output}
use iprl_poc.Agent.Prober.RoundTrip.{printed_answers, probe_round_trip}
use iprl_poc.Samples.Data.{
  one_address, udp_directive, answer_at, new_prober, paris, first_agent, generator_spec,
  generator_status,
}
use iprl_poc.Samples.Tool.{near_answer, far_answer, print_near, print_far}

-- A dial that works for every address.
abbrev dial : Text → Result ℕ Text
dial address = ok address

abbrev listening : GeneratorManager
listening = new_generator_manager generator_spec

abbrev processes : Map GeneratorManager
processes = (generator_spec.grpc_address, listening) ∷ []

-- The only notice of the tick after the Join.
abbrev notices : List GeneratorNotice
notices =
    (generator_spec, some (with_agent_specs (append_spec first_agent) (generator_status []))) ∷ []

probe_round_trip_example :
    let lines =
      map output_line (printed_answers true 1 2 (codes " caracal") (answer_at 6, answer_at 5)) in
    let element =
      build_forwarding_info_element one_address 2
        (some paris)
        udp_directive
        (answer_at 5)
        (answer_at 6) in
    let (c', end) =
      read_caracal_output one_address lines
        (send_directive one_address 0 both_written udp_directive new_prober).0 in
    (end ≡ reader_scans)
    × (c'.out_ch ≡ record new_prober.out_ch { buffer = new_prober.out_ch.buffer ++ element ∷ [] })
    × ((k : Text)
        → get k c'.pending
          ≡ ite
              (text_eq (directive_key one_address udp_directive) k)
              none
              (get k new_prober.pending))
unfolding new_caracal_prober make
probe_round_trip_example =
    probe_round_trip false true one_address udp_directive new_prober both_written (answer_at 5)
      (answer_at 6) 0 1 2 (codes " caracal") (omega arith) near_answer far_answer print_near
      print_far refl refl
