-- ===== src/Samples/Members.antt =====
-- Samples of the runs of an agent and of a generator, internal/components/agent/manager.go and
-- internal/components/generator/manager.go, and of the agent's tool.
use iprl_poc.Common.{[], ◌∷◌, none, some, true, false, refl, codes, ℕ, err}
use iprl_poc.Common.Channel.{close}
use iprl_poc.Components.Group.{failed}
use iprl_poc.Components.Member.{
  Member, MemberRun, MemberRuns, starts_member, start, next, is_signalled, works, part_ends,
  stream_ends, rpc_ends, closer_ends,
}
use iprl_poc.Agent.MockProber.Run.{mock_prober, mock_prober_laws}
use iprl_poc.Agent.Manager.{
  Attempt, new_agent_manager, update, set_status, leave_cluster, run_attempt,
}
use iprl_poc.Agent.Manager.Run.{
  run_rpc_server, AgentState, updates, stream_fails, agent_member, AgentEnds, MemberRuns-AgentEnds,
}
use iprl_poc.Commands.Ends.{fatal, shutdown_complete, AtWork, MainEnds, signal-breaks_agent}
use iprl_poc.Generator.Mock.Run.{
  MockDirectiveGenerator, mock_directive_generator, mock_directive_generator_laws,
  close_mock_directive_generator,
}
use iprl_poc.Generator.Manager
use iprl_poc.Generator.Manager.Attempts.{StreamAttempt, attempt_stream}
use iprl_poc.Generator.Manager.Run
use iprl_poc.Generator.Manager.Run.{GeneratorState, generator_member, close_both}
use iprl_poc.Generator.Manager.Run.Ends.{GeneratorEnds, MemberRuns-GeneratorEnds}
use iprl_poc.Samples.Data.{
  first_agent, agent_status, all_zero, zeros, udp_directive, generator_spec, queue_of,
}
use iprl_poc.Samples.Lifecycles.{group, group-IsErrGroup}
use iprl_poc.Samples.Parts.{prober_with}

abbrev mock_agent : Member ℕ
mock_agent = agent_member ℕ (mock_prober all_zero) (mock_prober_laws all_zero)

abbrev beginning : AgentState (mock_prober all_zero)
beginning = record { manager = new_agent_manager first_agent; prober = prober_with [] [] }

-- The context is done while the dial of an attempt fails.
abbrev lost_attempt : Attempt ℕ
lost_attempt = record {
  is_cancelled = false;
  dials = false;
  reply = err 7;
  opens = false;
  streams = false;
}

-- The agent has a status when the signal comes; the stream ends with error 7, and the agent leaves.
abbrev agent_ended : MemberRun group mock_agent
agent_ended = record {
  progress = record {
    group = (true, some (failed 7));
    returned = none ∷ some (failed 7) ∷ none ∷ none ∷ [];
  };
  state = record {
    manager = record { current_spec = some first_agent; current_status = some agent_status };
    prober = prober_with [] [];
  };
  left = (first_agent.orchestrator_address, codes "a") ∷ [];
  stream_result = some (failed 7);
  others = none ∷ none ∷ none ∷ [];
  works_part = false;
  streams = false;
  serves_rpc = false;
  closes_later = false;
}

agent_ended-MemberRuns : MemberRuns group mock_agent beginning agent_ended
unfolding run_rpc_server run_attempt update set_status new_agent_manager leave_cluster
agent_ended-MemberRuns =
    next
      (next
        (next
          (next (next (next start (works (updates agent_status))) is_signalled)
            (part_ends none refl))
          (stream_ends refl (stream_fails lost_attempt _ 7 refl refl)))
        (rpc_ends none true none refl (λ e. refl)))
      (closer_ends _ refl refl refl)

MemberRuns-AgentEnds_example :
    AgentEnds ℕ
      (mock_prober all_zero)
      (mock_prober_laws all_zero)
      group
      group-IsErrGroup
      first_agent
      agent_ended
MemberRuns-AgentEnds_example =
    MemberRuns-AgentEnds ℕ (mock_prober all_zero) (mock_prober_laws all_zero) group group-IsErrGroup
      first_agent (prober_with [] []) agent_ended-MemberRuns (refl, refl, refl, refl)

-- The agent's Run at its start.
abbrev started_agent : MemberRun group mock_agent
started_agent = starts_member group mock_agent beginning

started_agent-AtWork :
    AtWork ℕ (mock_prober all_zero) (mock_prober_laws all_zero) group group-IsErrGroup started_agent
started_agent-AtWork = record {
  works_part = refl;
  streams = refl;
  serves_rpc = refl;
  closes_later = refl;
  quiet = refl;
}

signal-breaks_agent_example :
    MainEnds ℕ
      (mock_prober all_zero)
      (mock_prober_laws all_zero)
      group
      group-IsErrGroup
      started_agent
      (fatal (failed 7))
    × MainEnds ℕ
        (mock_prober all_zero)
        (mock_prober_laws all_zero)
        group
        group-IsErrGroup
        started_agent
        shutdown_complete
unfolding run_attempt new_agent_manager
signal-breaks_agent_example =
    signal-breaks_agent ℕ (mock_prober all_zero) (mock_prober_laws all_zero) group group-IsErrGroup
      first_agent (prober_with [] []) lost_attempt (new_agent_manager first_agent) 7 start
      started_agent-AtWork refl

abbrev mock_generator : Member ℕ
mock_generator = generator_member ℕ (mock_directive_generator zeros)

-- A mock generator with a directive on its open channel.
abbrev open_generator : MockDirectiveGenerator
open_generator = record {
  out_ch = queue_of (udp_directive ∷ []);
  closed = false;
  held = none;
  draws = 0;
}

abbrev shut_generator : MockDirectiveGenerator
shut_generator = record open_generator {
  out_ch = record (queue_of (udp_directive ∷ [])) { is_closed = true };
  closed = true;
}

abbrev generator_beginning : GeneratorState (mock_directive_generator zeros)
generator_beginning = record {
  manager = Manager.new_generator_manager generator_spec;
  generator = open_generator;
}

-- The attempt that finds the context done returns nil.
abbrev late_attempt : StreamAttempt ℕ
late_attempt = record {
  is_cancelled = true;
  dials = true;
  reply = err 7;
  opens = true;
  streams = true;
}

-- The generator has no status when the signal comes; it closes its directive generator.
abbrev generator_ended : MemberRun group mock_generator
generator_ended = record {
  progress = record { group = (true, none); returned = none ∷ none ∷ none ∷ none ∷ [] };
  state = record {
    manager = record {
      current_spec = some generator_spec;
      current_status = none;
      once_done = true;
    };
    generator = shut_generator;
  };
  left = [];
  stream_result = none;
  others = none ∷ none ∷ none ∷ [];
  works_part = false;
  streams = false;
  serves_rpc = false;
  closes_later = false;
}

generator_ended-MemberRuns : MemberRuns group mock_generator generator_beginning generator_ended
unfolding Run.run_rpc_server attempt_stream Manager.new_generator_manager Manager.leave_cluster
    close_both Manager.close_generator close_mock_directive_generator close
generator_ended-MemberRuns =
    next
      (next
        (next (next (next start is_signalled) (part_ends none refl))
          (stream_ends refl (Run.GeneratorStreamEnds.stream_finishes late_attempt _ refl)))
        (rpc_ends none true none refl (λ e. refl)))
      (closer_ends _ refl refl refl)

MemberRuns-GeneratorEnds_example :
    GeneratorEnds ℕ
      (mock_directive_generator zeros)
      (mock_directive_generator_laws zeros)
      group
      group-IsErrGroup
      generator_spec
      generator_ended
unfolding mock_directive_generator_laws
MemberRuns-GeneratorEnds_example =
    MemberRuns-GeneratorEnds ℕ (mock_directive_generator zeros)
      (mock_directive_generator_laws zeros) group group-IsErrGroup generator_spec open_generator
      refl generator_ended-MemberRuns (refl, refl, refl, refl)
