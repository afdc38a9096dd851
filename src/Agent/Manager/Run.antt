-- ===== src/Agent/Manager/Run.antt =====
-- `Run` of internal/components/agent/manager.go over any prober. `E` has the errors of the calls
-- outside of the repository, `g` is the errgroup.
use iprl_poc.Common.{
  List, [], ◌∷◌, Option, none, some, Bool, true, ◌≡◌, refl, ◌∙◌, arith, ◌⊎◌, inl, inr, Text,
  Option-cases,
}
use iprl_poc.Proto.{ProbingAgentSpec, ProbingAgentStatus, ForwardingInfoElement}
use iprl_poc.Components.{Prober, IsProber}
use iprl_poc.Components.Group.{
  ErrGroup, IsErrGroup, first_error, RunError, canceled, failed, run_result, Filters,
  run_result-Filters,
}
use iprl_poc.Components.Serving.{StopCall, stop_calls}
use iprl_poc.Components.Member.{
  Member, leave_calls, MemberRun, MemberRuns, is_stopping, HaveReturned,
}
use iprl_poc.Components.Member.Outcome.{Keeps, MemberRuns-Outcome}
use iprl_poc.Agent.Manager.{
  AgentManager, new_agent_manager, set_status, update, join_cluster, leave_cluster, Verdict,
  gives_up, retries, finishes, Attempt, run_attempt,
}
use iprl_poc.Agent.Manager.Elements.{Session}

-- The calls that stop the server, and the result, where net.Listen returns `listen` and Serve `serve`.
-- The shutdown goroutine is started once the server listens.
unfoldable pub run_rpc_server :
    {E : Type 0} → Option E → Bool → Option E → List StopCall × Option (RunError E)
unfolding stop_calls
run_rpc_server (some e) in_time serve = ([], some (failed e))
run_rpc_server none in_time (some e) = (stop_calls in_time, some (failed e))
run_rpc_server none in_time none = (stop_calls in_time, none)

pub record AgentState (p : Prober) : Type 0 where
  pub manager : AgentManager
  pub prober : p.State

module _ (E : Type 0) (p : Prober) (v : IsProber p) where
  -- What goes on beside the ends of the goroutines: an Update call, an attempt that is retried, and
  -- any rounds of the prober's Run and of `streamElements`. An attempt gives up only when the context
  -- is done, as the flag says.
  pub data AgentWorks (done : Bool) (s : AgentState p) : AgentState p → Type 0 where
    updates :
        (status : ProbingAgentStatus)
        → AgentWorks done s (record s { manager = update status s.manager })
    attempts :
        (a : Attempt E) (n : AgentManager)
        → run_attempt a s.manager ≡ (n, retries)
        → AgentWorks done s (record s { manager = n })
    uses :
        {xs es : List ForwardingInfoElement} {q : p.State}
        → Session p v s.prober xs es q
        → AgentWorks done s (record s { prober = q })

  -- The end of `Retry` of backoff v2.2.1: the last attempt returns nil; or it finds the context done, which is
  -- a permanent error; or its error, `e`, meets a context that is done by then.
  pub data AgentStreamEnds (done : Bool) (s : AgentState p)
      : AgentState p → Option (RunError E) → Type 0 where
    stream_finishes :
        (a : Attempt E) (n : AgentManager)
        → run_attempt a s.manager ≡ (n, finishes)
        → AgentStreamEnds done s (record s { manager = n }) none
    stream_gives_up :
        (a : Attempt E) (n : AgentManager)
        → done ≡ true
        → run_attempt a s.manager ≡ (n, gives_up)
        → AgentStreamEnds done s (record s { manager = n }) (some canceled)
    stream_fails :
        (a : Attempt E) (n : AgentManager) (e : E)
        → done ≡ true
        → run_attempt a s.manager ≡ (n, retries)
        → AgentStreamEnds done s (record s { manager = n }) (some (failed e))

  -- `Close` of the manager does nothing.
  abbrev pub agent_member : Member E
  agent_member = record {
    State = AgentState p;
    Works = AgentWorks;
    StreamEnds = AgentStreamEnds;
    serve = run_rpc_server;
    leave = λ s. leave_cluster s.manager;
    close = λ s. some s;
  }

  abbrev HasSpec : ProbingAgentSpec → AgentState p → Type 0
  HasSpec spec s = s.manager.current_spec ≡ some spec

  -- An attempt keeps the spec.
  run_attempt-current_spec :
      (a : Attempt E) (m n : AgentManager) (w : Verdict)
      → run_attempt a m ≡ (n, w)
      → n.current_spec ≡ m.current_spec
  unfolding run_attempt join_cluster set_status
  run_attempt-current_spec a m n w h = ground arith

  works-HasSpec :
      (spec : ProbingAgentSpec) {d : Bool} {s t : AgentState p}
      → AgentWorks d s t
      → HasSpec spec s
      → HasSpec spec t
  unfolding update set_status
  works-HasSpec spec (updates status) h = h
  works-HasSpec spec {s = s} (attempts a n e) h = run_attempt-current_spec a s.manager n _ e ∙ h
  works-HasSpec spec (uses u) h = h

  stream-HasSpec :
      (spec : ProbingAgentSpec) {d : Bool} {s t : AgentState p} {r : Option (RunError E)}
      → AgentStreamEnds d s t r
      → HasSpec spec s
      → HasSpec spec t
  stream-HasSpec spec {s = s} (stream_finishes a n e) h =
      run_attempt-current_spec a s.manager n _ e ∙ h
  stream-HasSpec spec {s = s} (stream_gives_up a n d e) h =
      run_attempt-current_spec a s.manager n _ e ∙ h
  stream-HasSpec spec {s = s} (stream_fails a n x d e) h =
      run_attempt-current_spec a s.manager n _ e ∙ h

  -- The Leave call for a state with the spec, if the agent has joined.
  leave_calls-agent :
      (spec : ProbingAgentSpec) (s : AgentState p)
      → HasSpec spec s
      → (leave_calls (leave_cluster s.manager) ≡ [])
        ⊎ ((status : ProbingAgentStatus) × (s.manager.current_status ≡ some status)
            × (leave_calls (leave_cluster s.manager)
                ≡ (spec.orchestrator_address, status.uuid) ∷ []))
  unfolding leave_cluster
  leave_calls-agent spec s h = elim (Option-cases s.manager.current_status) [
    | inl e ↦ inl (rw e refl)
    | inr (status, e) ↦ inr (status, e, rw (e, h) refl)
  ]

  module _ (g : ErrGroup (RunError E)) (h : IsErrGroup g) where
    -- How Run stands when Wait returns.
    pub record AgentEnds (spec : ProbingAgentSpec) (s : MemberRun g agent_member) : Type 0 where
      pub over : is_stopping g agent_member s ≡ true
      pub left_once :
          (s.left ≡ []) ⊎ ((uuid : Text) × (s.left ≡ (spec.orchestrator_address, uuid) ∷ []))
      pub result : Filters (first_error s.progress.returned) (run_result (g.wait s.progress.group))
      pub by_stream :
          ((e : RunError E) × (first_error s.others ≡ some e))
          ⊎ (g.wait s.progress.group ≡ s.stream_result)

    -- When all goroutines of an agent's Run have returned: the context is done; the agent has made one
    -- Leave call, to the orchestrator of its spec, or none; Run returns nil if the first error is
    -- context.Canceled or there is none, and else that error; and unless the prober or the server reports an error, Wait
    -- returns what the stream ended with, also if the signal has broken it.
    pub MemberRuns-AgentEnds :
        (spec : ProbingAgentSpec) (q : p.State) {s : MemberRun g agent_member}
        → MemberRuns g agent_member (record { manager = new_agent_manager spec; prober = q }) s
        → HaveReturned g agent_member s
        → AgentEnds spec s
    unfolding new_agent_manager
    MemberRuns-AgentEnds spec q {s} r all =
        let keeps : Keeps g agent_member (HasSpec spec) (λ t. Unit) = record {
          works-P = works-HasSpec spec;
          works-Q = λ w t. tt;
          stream-P = stream-HasSpec spec;
          stream-Q = λ w t. tt;
          close-P = λ t u c e. ground arith;
          close-Q = λ t u c e. tt;
        } in
        let o = MemberRuns-Outcome g agent_member h keeps refl r all in
        record {
          over = o.over;
          left_once = elim (leave_calls-agent spec o.left_from o.left_held) [
            | inl none_left ↦ inl (o.left_once ∙ none_left)
            | inr (status, joined, calls) ↦ inr (status.uuid, o.left_once ∙ calls)
          ];
          result = rw o.waits (run_result-Filters (first_error s.progress.returned));
          by_stream = elim (Option-cases (first_error s.others)) [
            | inl quiet ↦ inr (o.led quiet)
            | inr some_error ↦ inl some_error
          ];
        }
