-- ===== src/Samples/Lifecycles.antt =====
-- Samples of the orchestrator's whole life, internal/components/orchestrator/manager.go.
use iprl_poc.Common.{[], ◌∷◌, Option, none, some, Bool, true, false, ◌≡◌, refl, codes, ℕ}
use iprl_poc.Common.Channel.{make, close}
use iprl_poc.Components.Group.{
  ErrGroup, IsErrGroup, or_else, RunError, canceled, element_channel_closed,
}
use iprl_poc.Orchestrator.Manager.{OrchestratorManager, new_orchestrator_manager}
use iprl_poc.Orchestrator.Manager.Queues.{
  message, push_probing_directives, receive_elements, close_manager, close_queue,
}
use iprl_poc.Orchestrator.Manager.Fanout.{open_stream}
use iprl_poc.Orchestrator.Manager.Clients.{opens, receives}
use iprl_poc.Orchestrator.Manager.Machine.{
  handles, turns, pushes, shuts, Reached, IsSound, IsCalm, Reached-IsCalm,
}
use iprl_poc.Orchestrator.Manager.Machine
use iprl_poc.Orchestrator.Manager.Run.{
  OrchestratorRun, starts_run, is_signalled, notifying_ends, fanout_ends, rpc_ends, http_ends,
  closer_ends, server_closed, run_rpc_server, run_http_server, Runs, AllReturned,
}
use iprl_poc.Orchestrator.Manager.Run.Outcome.{Outcome, Runs-Outcome}
use iprl_poc.Orchestrator.Manager.Run
use iprl_poc.Orchestrator.Manager.Run.Shutdown.{AtWork, EndsWith, shutdown_either_way}
use iprl_poc.Samples.Data.{empty_cluster, orchestrator_spec, udp_directive, some_element, queue_of}

-- A client opens its stream, an element and a directive are queued, and the manager is closed.
abbrev busy : OrchestratorManager
busy =
    (push_probing_directives (message udp_directive ∷ [])
      (receive_elements (message some_element ∷ []) (open_stream (codes "web") empty_cluster)).0).0

abbrev shut_down : OrchestratorManager
shut_down = record busy { directive_ch = none; element_ch = none; once_done = true }

busy-Reached : Reached orchestrator_spec busy
busy-Reached =
    Machine.Reached.next
      (Machine.Reached.next
        (Machine.Reached.next Machine.Reached.start (handles (turns (opens (codes "web")))))
        (handles (turns (receives (message some_element ∷ [])))))
      (handles (pushes (message udp_directive ∷ [])))

closing_works : close_manager busy ≡ some shut_down
closing_works = (Reached-IsCalm busy-Reached).1.close_calm

Reached-IsCalm_example : IsSound shut_down × IsCalm shut_down
Reached-IsCalm_example = Reached-IsCalm (Machine.Reached.next busy-Reached (shuts closing_works))

-- An errgroup that keeps whether its context is done, and the first error.
abbrev pub returned_to : {E : Type 0} → Option E → Bool × Option E → Bool × Option E
returned_to none s = s
returned_to (some e) s = (true, or_else s.1 (some e))

abbrev pub plain_group : (E : Type 0) → ErrGroup E
plain_group E = record {
  State = Bool × Option E;
  start = (false, none);
  cancelled = λ s. (true, s.1);
  returns = returned_to;
  is_done = λ s. s.0;
  wait = λ s. s.1;
}

or_else-none : {E : Type 0} (q : Option E) → q ≡ or_else q none
or_else-none none = refl
or_else-none (some e) = refl

returned_to-wait :
    {E : Type 0} (s : Bool × Option E) (r : Option E) → (returned_to r s).1 ≡ or_else s.1 r
returned_to-wait s none = or_else-none s.1
returned_to-wait s (some e) = refl

pub plain_group-IsErrGroup : (E : Type 0) → IsErrGroup (plain_group E)
plain_group-IsErrGroup E = record {
  start-is_done = refl;
  start-wait = refl;
  cancelled-is_done = λ s. refl;
  cancelled-wait = λ s. refl;
  returns_nil-is_done = λ s. refl;
  returns_error-is_done = λ s e. refl;
  returns-wait = returned_to-wait;
}

abbrev pub group : ErrGroup (RunError ℕ)
group = plain_group (RunError ℕ)

pub group-IsErrGroup : IsErrGroup group
group-IsErrGroup = plain_group-IsErrGroup (RunError ℕ)

-- Errors are numbers. At a signal, all goroutines return, the closing one last.
abbrev ended : OrchestratorRun group
ended = record {
  progress = record {
    group = (true, some canceled);
    returned = some canceled ∷ some canceled ∷ none ∷ none ∷ none ∷ [];
  };
  manager = record empty_cluster { directive_ch = none; element_ch = none; once_done = true };
  held = some (record { capacity = 2; buffer = []; is_closed = true });
  notifies = false;
  fans_out = false;
  serves_rpc = false;
  serves_http = false;
  closes_later = false;
}

ended-Runs : Runs group orchestrator_spec ended
unfolding run_rpc_server run_http_server close_manager close_queue close new_orchestrator_manager
    make
ended-Runs =
    Run.Runs.next
      (Run.Runs.next
        (Run.Runs.next
          (Run.Runs.next
            (Run.Runs.next (Run.Runs.next Run.Runs.start is_signalled) (notifying_ends refl refl))
            (fanout_ends refl refl))
          (rpc_ends none true none refl (λ e. refl)))
        (http_ends true server_closed refl (λ e. refl)))
      (closer_ends _ refl refl refl)

Runs-Outcome_example : Outcome group group-IsErrGroup ended
Runs-Outcome_example = Runs-Outcome group group-IsErrGroup ended-Runs (refl, refl, refl, refl, refl)

at_work : AtWork group group-IsErrGroup (starts_run group empty_cluster)
at_work = record {
  notifies = refl;
  fans_out = refl;
  serves_rpc = refl;
  serves_http = refl;
  closes_later = refl;
  quiet = refl;
}

shutdown_either_way_example :
    EndsWith group group-IsErrGroup (starts_run group empty_cluster) none
    × EndsWith group group-IsErrGroup (starts_run group empty_cluster) (some element_channel_closed)
unfolding new_orchestrator_manager make
shutdown_either_way_example =
    shutdown_either_way group group-IsErrGroup (starts_run group empty_cluster) Run.Runs.start
      at_work (queue_of [], refl, refl)
