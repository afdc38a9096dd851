-- ===== src/Orchestrator/Manager/Run/Outcome.antt =====
-- What holds when `Run` of internal/components/orchestrator/manager.go has ended.
use iprl_poc.Common.{
  Option, none, some, true, false, ◌≡◌, refl, arith, ◌⊎◌, inl, inr, Mem, not, ◌↔◌,
}
use iprl_poc.Proto.{ProbingOrchestratorSpec}
use iprl_poc.Components.Group.{
  ErrGroup, IsErrGroup, reports, WaitsFirst, reports-WaitsFirst, reports-is_done, first_error,
  first_error-some, run_result-some, Mem-reported, Mem-last, RunError, canceled,
  element_channel_closed, run_result,
}
use iprl_poc.Orchestrator.Manager.{new_orchestrator_manager}
use iprl_poc.Orchestrator.Manager.Machine.{
  shuts, IsSound, Handler-IsSound, Handler-once_done, Action-IsSound, close_manager_sound,
  new_manager-IsSound,
}
use iprl_poc.Orchestrator.Manager.Run.{
  run_rpc_server, run_http_server, OrchestratorRun, is_over, RunStep, is_signalled, works,
  notifying_ends, fanout_ends, fanout_fails, rpc_ends, http_ends, closer_ends, Runs, start, next,
  AllReturned,
}

module _ {E : Type 0} (g : ErrGroup (RunError E)) where
  record Invariant (s : OrchestratorRun g) : Type 0 where
    sound : IsSound s.manager
    waits : WaitsFirst g s.progress
    once : s.manager.once_done ≡ not s.closes_later
    over : s.closes_later ≡ false → is_over g s ≡ true
    told : s.notifies ≡ false → Mem (some canceled) s.progress.returned

  module _ (h : IsErrGroup g) where
    -- A goroutine returns, where the rest of the state stays.
    returns-Invariant :
        (r : Option (RunError E)) (s t : OrchestratorRun g)
        → Invariant s
        → t.progress ≡ reports g r s.progress
        → t.manager ≡ s.manager
        → t.closes_later ≡ s.closes_later
        → (t.notifies ≡ s.notifies) ⊎ (r ≡ some canceled)
        → Invariant t
    returns-Invariant r s t i p m c n = record {
      sound = rw m i.sound;
      waits = rw p (reports-WaitsFirst g h r s.progress i.waits);
      once = rw (m, c) i.once;
      over = λ e. rw p (reports-is_done g h r s.progress (i.over (rw c at e)));
      told = λ e. rw p (elim n [
        | inl same ↦ Mem-reported (some canceled) s.progress.returned r (i.told (rw same at e))
        | inr is_canceled ↦ rw is_canceled (Mem-last (some canceled) s.progress.returned)
      ]);
    }

    RunStep-Invariant : {s t : OrchestratorRun g} → RunStep g s t → Invariant s → Invariant t
    RunStep-Invariant {s} is_signalled i = record {
      sound = i.sound;
      waits = rw (h.cancelled-wait s.progress.group) i.waits;
      once = i.once;
      over = λ e. h.cancelled-is_done s.progress.group;
      told = i.told;
    }
    RunStep-Invariant {s} (works a) i = record {
      sound = Handler-IsSound a i.sound;
      waits = i.waits;
      once = rw (Handler-once_done a i.sound) i.once;
      over = i.over;
      told = i.told;
    }
    RunStep-Invariant {s} (notifying_ends e d) i =
        returns-Invariant (some canceled) s _ i refl refl refl (inr refl)
    RunStep-Invariant {s} (fanout_ends e d) i =
        returns-Invariant (some canceled) s _ i refl refl refl (inl refl)
    RunStep-Invariant {s} (fanout_fails e c) i =
        returns-Invariant (some element_channel_closed) s _ i refl refl refl (inl refl)
    RunStep-Invariant {s} (rpc_ends listen in_time serve e c) i =
        returns-Invariant (run_rpc_server listen in_time serve).1 s _ i refl refl refl (inl refl)
    RunStep-Invariant {s} (http_ends in_time ends e c) i =
        returns-Invariant (run_http_server in_time ends).1 s _ i refl refl refl (inl refl)
    RunStep-Invariant {s} (closer_ends n e d c) i = record {
      sound = Action-IsSound (shuts c) i.sound;
      waits = reports-WaitsFirst g h none s.progress i.waits;
      once = ground (arith, close_manager_sound s.manager i.sound);
      over = λ e. reports-is_done g h none s.progress d;
      told = λ e. Mem-reported (some canceled) s.progress.returned none (i.told e);
    }

    Runs-Invariant :
        {spec : ProbingOrchestratorSpec} {s : OrchestratorRun g} → Runs g spec s → Invariant s
    unfolding new_orchestrator_manager
    Runs-Invariant {spec} start = record {
      sound = new_manager-IsSound spec;
      waits = h.start-wait;
      once = refl;
      over = λ e. absurd (ground arith);
      told = λ e. absurd (ground arith);
    }
    Runs-Invariant (next r s) = RunStep-Invariant s (Runs-Invariant r)

    pub Runs-IsSound :
        {spec : ProbingOrchestratorSpec} {s : OrchestratorRun g} → Runs g spec s → IsSound s.manager
    Runs-IsSound r = (Runs-Invariant r).sound

    pub Runs-waits :
        {spec : ProbingOrchestratorSpec} {s : OrchestratorRun g}
        → Runs g spec s
        → WaitsFirst g s.progress
    Runs-waits r = (Runs-Invariant r).waits

    -- The state in which Wait returns.
    pub record Outcome (s : OrchestratorRun g) : Type 0 where
      pub over : is_over g s ≡ true
      pub directives_shut : s.manager.directive_ch ≡ none
      pub elements_shut : s.manager.element_ch ≡ none
      pub sound : IsSound s.manager
      pub cause : RunError E
      pub first : first_error s.progress.returned ≡ some cause
      pub waits : g.wait s.progress.group ≡ some cause
      pub nil_if : (run_result (g.wait s.progress.group) ≡ none) ↔ (cause ≡ canceled)

    -- When all goroutines of Run have returned, whatever the handlers did beside them: the context is
    -- done, both queues are shut, the registry is consistent; Wait returns an error, the first one
    -- reported; and Run returns nil exactly if that is context.Canceled.
    pub Runs-Outcome :
        {spec : ProbingOrchestratorSpec} {s : OrchestratorRun g}
        → Runs g spec s
        → AllReturned g s
        → Outcome s
    Runs-Outcome {s = s} r (notifies, fans, rpc, http, closes) =
        let i = Runs-Invariant r in
        let shut : s.manager.once_done ≡ true = ground (arith, i.once) in
        let (cause, first) = first_error-some canceled s.progress.returned (i.told notifies) in
        let waits : g.wait s.progress.group ≡ some cause = ground (arith, i.waits) in
        record {
          over = i.over closes;
          directives_shut = rw shut at i.sound.directives_sound;
          elements_shut = rw shut at i.sound.elements_sound;
          sound = i.sound;
          cause = cause;
          first = first;
          waits = waits;
          nil_if = rw waits (run_result-some cause);
        }
