-- ===== src/Orchestrator/Manager/Run.antt =====
-- `Run` of internal/components/orchestrator/manager.go: its five goroutines in an errgroup, beside the
-- handlers that the two servers start. `g` is the errgroup, `E` the errors of net, gRPC and HTTP.
pub mod Outcome
pub mod Shutdown
use iprl_poc.Common.{
  List, [], ◌∷◌, ◌++◌, Option, none, some, Bool, true, false, ◌≡◌, ◌≢◌, refl, sym, arith, ◌⊎◌, inl,
  inr, Option-cases, Bool-cases, if◌then◌else◌, Mem, not, ◌↔◌,
}
use mathlib.Core.Option
use iprl_poc.Common.Channel.{Channel}
use iprl_poc.Proto.{ForwardingInfoElement, ProbingOrchestratorSpec}
use iprl_poc.Components.Group.{
  ErrGroup, IsErrGroup, Progress, started, reports, signalled, WaitsFirst, reports-WaitsFirst,
  reports-is_done, first_error, first_error-some, run_result-some, Mem-reported, Mem-last, RunError,
  canceled, element_channel_closed, failed, run_result,
}
use iprl_poc.Components.Serving.{StopCall, stop_calls}
use iprl_poc.Orchestrator.Manager.{OrchestratorManager, new_orchestrator_manager}
use iprl_poc.Orchestrator.Manager.Queues.{close_manager}
use iprl_poc.Orchestrator.Manager.Fanout
use iprl_poc.Orchestrator.Manager.Fanout.{run_fanout}
use iprl_poc.Orchestrator.Manager.Machine.{
  Handler, shuts, IsSound, Handler-IsSound, Handler-once_done, Action-IsSound, close_manager_sound,
  new_manager-IsSound,
}

-- The calls that stop the server, and the result, where net.Listen returns `listen` and Serve `serve`.
-- The shutdown goroutine is started once the server listens.
unfoldable pub run_rpc_server :
    {E : Type 0} → Option E → Bool → Option E → List StopCall × Option (RunError E)
unfolding stop_calls
run_rpc_server (some e) in_time serve = ([], some (failed e))
run_rpc_server none in_time (some e) = (stop_calls in_time, some (failed e))
run_rpc_server none in_time none = (stop_calls in_time, none)

-- How ListenAndServe ends: http.ErrServerClosed or another error.
pub data ServeEnd (E : Type 0) : Type 0 where
  server_closed : ServeEnd E
  serve_fails : E → ServeEnd E

pub data HttpStopCall : Type 0 where
  http_shutdown http_close : HttpStopCall

-- The calls that stop the server once the context is done, where the flag says whether Shutdown meets
-- no deadline in 3 s, and the result.
unfoldable pub run_http_server :
    {E : Type 0} → Bool → ServeEnd E → List HttpStopCall × Option (RunError E)
run_http_server in_time e = (
  if in_time then http_shutdown ∷ [] else http_shutdown ∷ http_close ∷ [],
  elim e [ server_closed ↦ none | serve_fails x ↦ some (failed x) ],
)

-- The queue that a select of the fan-out holds when it read `m.elementCh` before Close.
abbrev pub shut_queue :
    Option (Channel ForwardingInfoElement) → Option (Channel ForwardingInfoElement)
shut_queue = Option.map (λ (ch : Channel ForwardingInfoElement). record ch { is_closed = true })

module _ {E : Type 0} (g : ErrGroup (RunError E)) where
  -- The goroutines that have not returned; `held` is the queue that a select which began before Close
  -- still holds.
  pub record OrchestratorRun : Type 0 where
    pub progress : Progress g
    pub manager : OrchestratorManager
    pub held : Option (Channel ForwardingInfoElement)
    pub notifies : Bool
    pub fans_out : Bool
    pub serves_rpc : Bool
    pub serves_http : Bool
    pub closes_later : Bool

  abbrev pub starts_run : OrchestratorManager → OrchestratorRun
  starts_run m = record {
    progress = started g;
    manager = m;
    held = none;
    notifies = true;
    fans_out = true;
    serves_rpc = true;
    serves_http = true;
    closes_later = true;
  }

  abbrev pub is_over : OrchestratorRun → Bool
  is_over s = g.is_done s.progress.group

  -- A step of a goroutine. Serve returns nil, and ListenAndServe ErrServerClosed, only once the
  -- server is told to stop, which the code does when the context is done. The ticks, the rounds of
  -- the fan-out and all handlers are `works`.
  pub data RunStep (s : OrchestratorRun) : OrchestratorRun → Type 0 where
    is_signalled : RunStep s (record s { progress = signalled g s.progress })
    works : {n : OrchestratorManager} → Handler s.manager n → RunStep s (record s { manager = n })
    notifying_ends :
        s.notifies ≡ true
        → is_over s ≡ true
        → RunStep s (record s { progress = reports g (some canceled) s.progress; notifies = false })
    fanout_ends :
        s.fans_out ≡ true
        → is_over s ≡ true
        → RunStep s (record s { progress = reports g (some canceled) s.progress; fans_out = false })
    fanout_fails :
        s.fans_out ≡ true
        → run_fanout (record s.manager { element_ch = s.held }) ≡ Fanout.element_channel_closed
        → RunStep s (record s {
          progress = reports g (some element_channel_closed) s.progress;
          fans_out = false;
        })
    rpc_ends :
        (listen : Option E) (in_time : Bool) (serve : Option E)
        → s.serves_rpc ≡ true
        → ((run_rpc_server listen in_time serve).1 ≡ none → is_over s ≡ true)
        → RunStep s (record s {
          progress = reports g (run_rpc_server listen in_time serve).1 s.progress;
          serves_rpc = false;
        })
    http_ends :
        (in_time : Bool) (e : ServeEnd E)
        → s.serves_http ≡ true
        → ((run_http_server in_time e).1 ≡ none → is_over s ≡ true)
        → RunStep s (record s {
          progress = reports g (run_http_server in_time e).1 s.progress;
          serves_http = false;
        })
    closer_ends :
        (n : OrchestratorManager)
        → s.closes_later ≡ true
        → is_over s ≡ true
        → close_manager s.manager ≡ some n
        → RunStep s (record s {
          progress = reports g none s.progress;
          manager = n;
          held = shut_queue s.manager.element_ch;
          closes_later = false;
        })

  pub data Runs (spec : ProbingOrchestratorSpec) : OrchestratorRun → Type 0 where
    start : Runs spec (starts_run (new_orchestrator_manager spec))
    next : {s t : OrchestratorRun} → Runs spec s → RunStep s t → Runs spec t

  -- How a run may go on.
  pub data Goes (s : OrchestratorRun) : OrchestratorRun → Type 0 where
    stays : Goes s s
    goes : {t u : OrchestratorRun} → Goes s t → RunStep t u → Goes s u

  pub Goes-Runs :
      {spec : ProbingOrchestratorSpec} {s t : OrchestratorRun}
      → Runs spec s
      → Goes s t
      → Runs spec t
  Goes-Runs r stays = r
  Goes-Runs r (goes w step) = next (Goes-Runs r w) step

  abbrev pub AllReturned : OrchestratorRun → Type 0
  AllReturned s =
      (s.notifies ≡ false)
      × (s.fans_out ≡ false)
      × (s.serves_rpc ≡ false)
      × (s.serves_http ≡ false)
      × (s.closes_later ≡ false)
