-- ===== src/Generator/Manager/Run.antt =====
-- `Run` of internal/components/generator/manager.go over any directive generator. `E` has the errors
-- of the calls outside of the repository, `g` is the errgroup.
mod Holds
pub mod Ends
use iprl_poc.Common.{
  List, [], ◌∷◌, Option, none, some, Bool, true, false, ◌≡◌, refl, sym, ap, ◌∙◌, arith, ◌⊎◌, inl,
  inr, Text, Option-cases, Bool-cases, if◌then◌else◌,
}
use iprl_poc.Common.Channel.{Channel, recv, received, recv-Recvs}
use iprl_poc.Proto.{
  ProbingDirectiveGeneratorSpec, ProbingDirectiveGeneratorStatus, ProbingDirective,
}
use iprl_poc.Components.{DirectiveGenerator, IsDirectiveGenerator}
use iprl_poc.Components.Group.{
  ErrGroup, IsErrGroup, first_error, RunError, canceled, failed, run_result,
}
use iprl_poc.Components.Serving.{StopCall, stop_calls}
use iprl_poc.Components.Member.{
  Member, leave_calls, MemberRun, MemberRuns, is_stopping, HaveReturned,
}
use iprl_poc.Components.Member.Outcome.{Keeps, MemberRuns-Outcome}
use iprl_poc.Generator.Manager.{
  GeneratorManager, new_generator_manager, set_status, update, join_cluster, leave_cluster,
  close_generator,
}
use iprl_poc.Generator.Manager.Attempts.{StreamAttempt, Verdict, retries, finishes, attempt_stream}

-- The calls that stop the server, and the result, where net.Listen returns `listen` and Serve `serve`.
-- The shutdown goroutine is started once the server listens.
unfoldable pub run_rpc_server :
    {E : Type 0} → Option E → Bool → Option E → List StopCall × Option (RunError E)
unfolding stop_calls
run_rpc_server (some e) in_time serve = ([], some (failed e))
run_rpc_server none in_time (some e) = (stop_calls in_time, some (failed e))
run_rpc_server none in_time none = (stop_calls in_time, none)

pub record GeneratorState (d : DirectiveGenerator) : Type 0 where
  pub manager : GeneratorManager
  pub generator : d.State

-- `Close` closes the directive generator at its first call.
unfoldable pub close_both : (d : DirectiveGenerator) → GeneratorState d → Option (GeneratorState d)
close_both d s =
    let (m, first) = close_generator s.manager in
    if first
    then elim (d.close s.generator) [
      | some t ↦ some (record { manager = m; generator = t })
      | none ↦ none
    ]
    else some (record { manager = m; generator = s.generator })

module _ (E : Type 0) (d : DirectiveGenerator) where
  -- What goes on beside the ends of the goroutines: an Update call, an attempt that is retried, a step
  -- of the directive generator's Run, and a pull of `streamDirectives`.
  pub data GeneratorWorks (done : Bool) (s : GeneratorState d) : GeneratorState d → Type 0 where
    updates :
        (status : ProbingDirectiveGeneratorStatus)
        → GeneratorWorks done s (record s { manager = update status s.manager })
    attempts :
        (a : StreamAttempt E) (n : GeneratorManager)
        → attempt_stream a s.manager ≡ (n, retries)
        → GeneratorWorks done s (record s { manager = n })
    generates :
        {t : d.State} → d.Runs s.generator t → GeneratorWorks done s (record s { generator = t })
    pulls :
        (v : ProbingDirective) (ch : Channel ProbingDirective)
        → recv (d.pull_channel s.generator) ≡ received v ch
        → GeneratorWorks done s (record s { generator = d.pulled s.generator ch })

  -- The end of `Retry` of backoff/v4: the last attempt returns nil, as it does where it finds the
  -- context done; or it fails, and Retry finds the context done by then and returns its error.
  pub data GeneratorStreamEnds (done : Bool) (s : GeneratorState d)
      : GeneratorState d → Option (RunError E) → Type 0 where
    stream_finishes :
        (a : StreamAttempt E) (n : GeneratorManager)
        → attempt_stream a s.manager ≡ (n, finishes)
        → GeneratorStreamEnds done s (record s { manager = n }) none
    stream_fails :
        (a : StreamAttempt E) (n : GeneratorManager)
        → done ≡ true
        → attempt_stream a s.manager ≡ (n, retries)
        → GeneratorStreamEnds done s (record s { manager = n }) (some canceled)

  abbrev pub generator_member : Member E
  generator_member = record {
    State = GeneratorState d;
    Works = GeneratorWorks;
    StreamEnds = GeneratorStreamEnds;
    serve = run_rpc_server;
    leave = λ s. leave_cluster s.manager;
    close = close_both d;
  }
