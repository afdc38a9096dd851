-- ===== src/Orchestrator/Manager/Run/Shutdown.antt =====
-- The two ways in which `Run` of internal/components/orchestrator/manager.go ends at a signal when
-- nothing has failed.
use iprl_poc.Common.{[], ◌∷◌, Option, none, some, true, false, ◌≡◌, refl, ap, ◌∙◌}
use iprl_poc.Common.Channel.{Channel, recv?, recv}
use iprl_poc.Proto.{ForwardingInfoElement, ProbingOrchestratorSpec}
use iprl_poc.Components.Group.{
  ErrGroup, IsErrGroup, Progress, reports, signalled, reports-is_done, RunError, canceled,
  element_channel_closed, run_result, first_error,
}
use iprl_poc.Orchestrator.Manager.{OrchestratorManager}
use iprl_poc.Orchestrator.Manager.Fanout
use iprl_poc.Orchestrator.Manager.Fanout.{run_fanout}
use iprl_poc.Orchestrator.Manager.Machine.{close_manager_sound}
use iprl_poc.Orchestrator.Manager.Run.{
  server_closed, run_rpc_server, run_http_server, shut_queue, OrchestratorRun, Runs, Goes, stays,
  goes, Goes-Runs, is_signalled, notifying_ends, fanout_ends, fanout_fails, rpc_ends, http_ends,
  closer_ends, AllReturned, is_over,
}
use iprl_poc.Orchestrator.Manager.Run.Outcome.{Runs-waits, Runs-IsSound}

module _ {E : Type 0} (g : ErrGroup (RunError E)) (h : IsErrGroup g) where
  -- All five goroutines are at work.
  pub record AtWork (s : OrchestratorRun g) : Type 0 where
    pub notifies : s.notifies ≡ true
    pub fans_out : s.fans_out ≡ true
    pub serves_rpc : s.serves_rpc ≡ true
    pub serves_http : s.serves_http ≡ true
    pub closes_later : s.closes_later ≡ true
    pub quiet : s.progress.returned ≡ []

  -- The context is done, and the closing goroutine has closed the queues; the fan-out still selects.
  record IsClosing (s t : OrchestratorRun g) : Type 0 where
    over : is_over g t ≡ true
    returned : t.progress.returned ≡ none ∷ []
    held : t.held ≡ shut_queue s.manager.element_ch
    notifies : t.notifies ≡ true
    fans_out : t.fans_out ≡ true
    serves_rpc : t.serves_rpc ≡ true
    serves_http : t.serves_http ≡ true
    closes_later : t.closes_later ≡ false

  closing :
      {spec : ProbingOrchestratorSpec} (s : OrchestratorRun g)
      → Runs g spec s
      → AtWork s
      → (t : OrchestratorRun g) × Goes g s t × IsClosing s t
  closing s r w =
      let over = h.cancelled-is_done s.progress.group in
      let shut = close_manager_sound s.manager (Runs-IsSound g h r) in
      (
        _,
        goes (goes stays is_signalled) (closer_ends _ w.closes_later over shut),
        record {
          over = reports-is_done g h none (signalled g s.progress) over;
          returned = rw w.quiet refl;
          held = refl;
          notifies = w.notifies;
          fans_out = w.fans_out;
          serves_rpc = w.serves_rpc;
          serves_http = w.serves_http;
          closes_later = refl;
        },
      )

  -- The run `s` may go on until all goroutines have returned, and Run gives `result`.
  abbrev pub EndsWith : OrchestratorRun g → Option (RunError E) → Type 0
  EndsWith s result =
      (t : OrchestratorRun g) × Goes g s t
      × AllReturned g t
      × (run_result (g.wait t.progress.group) ≡ result)

  -- The results after that.
  abbrev end_of : RunError E → OrchestratorRun g → Progress g
  unfolding run_rpc_server run_http_server
  end_of x t = reports g (run_http_server true server_closed).1 (
      reports g (run_rpc_server none true none).1
        (reports g (some canceled) (reports g (some x) t.progress)))

  -- The fan-out has returned `x`, and the rest ends without an error of its own.
  finish :
      {spec : ProbingOrchestratorSpec} (x : RunError E) (s t : OrchestratorRun g)
      → IsClosing s t
      → Runs g spec s
      → Goes g s (record t { progress = reports g (some x) t.progress; fans_out = false })
      → EndsWith s (run_result (some x))
  unfolding run_rpc_server run_http_server
  finish x s t c begin r =
      let p : Progress g = reports g (some x) t.progress in
      let q : Progress g = reports g (some canceled) p in
      let over = reports-is_done g h (some x) t.progress c.over in
      let over' = reports-is_done g h (some canceled) p over in
      let over'' = reports-is_done g h none q over' in
      let end =
        goes
          (goes (goes r (notifying_ends c.notifies over))
            (rpc_ends none true none c.serves_rpc (λ e. over')))
          (http_ends true server_closed c.serves_http (λ e. over'')) in
      let first : first_error (end_of x t).returned ≡ some x = rw c.returned refl in
      (
        _,
        end,
        (refl, refl, refl, refl, c.closes_later),
        ap run_result (Runs-waits g h (Goes-Runs g begin end) ∙ first),
      )

  -- The queue of elements is open and empty.
  abbrev pub IsIdle : OrchestratorManager → Type 0
  IsIdle m = (ch : Channel ForwardingInfoElement) × (m.element_ch ≡ some ch) × (ch.buffer ≡ [])

  fanout_drained :
      (m : OrchestratorManager) (ch : Channel ForwardingInfoElement)
      → ch.buffer ≡ []
      → run_fanout (record m { element_ch = shut_queue (some ch) }) ≡ Fanout.element_channel_closed
  unfolding run_fanout recv? recv
  fanout_drained m ch e = rw e refl

  -- A Run at work in which nothing has failed and the queue of elements is empty may go on, at a signal,
  -- so that it returns nil, or so that it returns the error "element channel is closed": that depends
  -- only on what the last select of the fan-out takes.
  pub shutdown_either_way :
      {spec : ProbingOrchestratorSpec} (s : OrchestratorRun g)
      → Runs g spec s
      → AtWork s
      → IsIdle s.manager
      → EndsWith s none × EndsWith s (some element_channel_closed)
  unfolding run_result
  shutdown_either_way s r w (ch, e, empty) =
      let (t, rt, c) = closing s r w in
      let drained : run_fanout (record t.manager { element_ch = t.held })
          ≡ Fanout.element_channel_closed =
        rw (c.held, e) (fanout_drained t.manager ch empty) in
      (
        finish canceled s t c r (goes rt (fanout_ends c.fans_out c.over)),
        finish element_channel_closed s t c r (goes rt (fanout_fails c.fans_out drained)),
      )
