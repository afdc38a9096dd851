-- ===== src/Samples/Parts.antt =====
-- Samples of the probers of internal/components/agent and of the directive generator of
-- internal/components/generator, and of the managers over them.
use iprl_poc.Common.{List, [], ◌∷◌, ◌++◌, none, some, true, false, ◌≡◌, refl, arith}
use iprl_poc.Common.Int.{pos, wrap64}
use iprl_poc.Common.Pacing.{div_second}
use iprl_poc.Common.Channel.{send, recv, close}
use iprl_poc.Proto.{ProbingDirective, ForwardingInfoElement}
use iprl_poc.Agent.MockProber.Run.{MockProber, close_mock_prober, mock_prober, mock_prober_laws}
use iprl_poc.Agent.Manager.{element_interval}
use iprl_poc.Agent.Manager.Elements.{
  directive_arrives, receive_fails, receiver_returns, send_works, receiver_turn, sender_turn,
  Session, start, receives, sends,
}
use iprl_poc.Agent.Manager.Elements.Order.{Session-in_order, receive_fails-Session}
use iprl_poc.Generator.Manager.{can_stream, send_interval, stream_turn}
use iprl_poc.Generator.Mock.Run.{
  MockDirectiveGenerator, mock_directive_generator, mock_directive_generator-IsDirectiveGenerator,
}
use iprl_poc.Generator.Manager.Rounds.{
  StreamRound, still_on, panics, returns_nil, pull_from, begin_round, end_round, stream_directives,
}
use iprl_poc.Generator.Manager.Rounds.Order.{directives_of, lost_at, stream_directives-in_order}
use iprl_poc.Generator.Manager.Rounds.Drain.{IsStreaming, stream_directives-drains}
use iprl_poc.Samples.Data.{
  all_zero, zeros, udp_directive, icmp_directive, some_element, queue_of, agent_status, first_agent,
  generator_status,
}

-- A mock prober with some directives and elements on its channels.
abbrev pub prober_with : List ProbingDirective → List ForwardingInfoElement → MockProber
prober_with ds es = record {
  in_ch = queue_of ds;
  out_ch = queue_of es;
  closed = false;
  held = none;
  draws = 0;
}

-- A directive arrives and an element is sent.
two_rounds :
    Session
      (mock_prober all_zero)
      (mock_prober_laws all_zero)
      (prober_with [] (some_element ∷ []))
      (some_element ∷ [])
      []
      (prober_with (udp_directive ∷ []) [])
unfolding receiver_turn sender_turn send recv element_interval div_second
two_rounds =
    sends (receives start (directive_arrives udp_directive) refl) send_works (some agent_status)
      (pos 100000000) some_element refl

Session-in_order_example : (some_element ∷ []) ++ [] ≡ (some_element ∷ []) ++ []
unfolding mock_prober_laws
Session-in_order_example =
    Session-in_order (mock_prober all_zero) (mock_prober_laws all_zero)
      (prober_with [] (some_element ∷ [])) (prober_with (udp_directive ∷ []) []) (some_element ∷ [])
      [] refl two_rounds

-- A mock prober that is closed.
abbrev closed_with : List ForwardingInfoElement → MockProber
closed_with es = record {
  in_ch = queue_of [];
  out_ch = record (queue_of es) { is_closed = true };
  closed = true;
  held = none;
  draws = 0;
}

late_round :
    Session
      (mock_prober all_zero)
      (mock_prober_laws all_zero)
      (closed_with (some_element ∷ []))
      (some_element ∷ [])
      []
      (closed_with [])
unfolding sender_turn recv element_interval div_second
late_round = sends start send_works (some agent_status) (pos 100000000) some_element refl

broken_receive :
    receiver_turn (mock_prober all_zero) receive_fails (prober_with [] (some_element ∷ []))
    ≡ receiver_returns (closed_with (some_element ∷ []))
unfolding receiver_turn close_mock_prober close
broken_receive = refl

receive_fails-Session_example :
    (◌≡◌ {A = List ForwardingInfoElement} [] []) × ((some_element ∷ []) ++ [] ≡ some_element ∷ [])
unfolding mock_prober_laws
receive_fails-Session_example =
    receive_fails-Session (mock_prober all_zero) (mock_prober_laws all_zero)
      (prober_with [] (some_element ∷ [])) (closed_with (some_element ∷ [])) (closed_with [])
      (some_element ∷ []) [] refl broken_receive late_round

-- A mock generator with directives on its channel.
abbrev pub generator_with : List ProbingDirective → MockDirectiveGenerator
generator_with ds = record {
  out_ch = record (queue_of ds) { is_closed = true };
  closed = true;
  held = none;
  draws = 0;
}

-- A round in which one agent is in the status.
abbrev pub plain_round : StreamRound
plain_round = record {
  top = some (generator_status (first_agent ∷ []));
  after = some (generator_status (first_agent ∷ []));
  is_done = false;
  sends = true;
}

stream_directives-in_order_example :
    let (sent, (end, t)) =
      stream_directives
        (mock_directive_generator zeros)
        (plain_round ∷ [])
        (generator_with (udp_directive ∷ icmp_directive ∷ [])) in
    directives_of sent ++ lost_at end ++ t.out_ch.buffer ≡ udp_directive ∷ icmp_directive ∷ []
unfolding stream_directives end_round begin_round pull_from can_stream recv stream_turn
    send_interval div_second wrap64
stream_directives-in_order_example =
    stream_directives-in_order (mock_directive_generator zeros)
      (mock_directive_generator-IsDirectiveGenerator zeros) (plain_round ∷ [])
      (generator_with (udp_directive ∷ icmp_directive ∷ [])) (λ (e : still_on ≡ panics). cc)

pub plain_round-IsStreaming : IsStreaming plain_round
unfolding can_stream send_interval div_second wrap64
plain_round-IsStreaming = record {
  status = generator_status (first_agent ∷ []);
  pause = pos 100000000;
  has_status = refl;
  allows = refl;
  paced = refl;
  goes = refl;
  works = refl;
}

stream_directives-drains_example :
    let (sent, (end, t)) =
      stream_directives
        (mock_directive_generator zeros)
        (plain_round ∷ plain_round ∷ [])
        (generator_with (udp_directive ∷ [])) in
    (end ≡ returns_nil) × (directives_of sent ≡ udp_directive ∷ [])
stream_directives-drains_example =
    stream_directives-drains (mock_directive_generator zeros)
      (mock_directive_generator-IsDirectiveGenerator zeros) (plain_round ∷ plain_round ∷ [])
      (generator_with (udp_directive ∷ [])) refl (omega arith)
      (plain_round-IsStreaming, (plain_round-IsStreaming, tt))
