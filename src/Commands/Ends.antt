-- ===== src/Commands/Ends.antt =====
-- How the programs cmd/agent, cmd/generator and cmd/orchestrator end: their calls of Run.
use iprl_poc.Common.{[], Option, none, some, true, ◌≡◌, ◌≢◌, ◌⊎◌, ap, refl, inl, inr, arith}
use iprl_poc.Components.Group.{
  ErrGroup, IsErrGroup, Progress, signalled, reports, reports-is_done, first_error, RunError,
  canceled, element_channel_closed, failed, run_result,
}
use iprl_poc.Components.{Prober, IsProber}
use iprl_poc.Components.Member.{
  MemberRun, MemberRuns, HaveReturned, MemberGoes, stays, goes, MemberGoes-MemberRuns, is_signalled,
  part_ends, stream_ends, rpc_ends, closer_ends,
}
use iprl_poc.Proto.{ProbingAgentSpec}
use iprl_poc.Agent.Manager.{AgentManager, new_agent_manager, retries, Attempt, run_attempt}
use iprl_poc.Agent.Manager.Run.{
  run_rpc_server, AgentState, AgentStreamEnds, stream_gives_up, stream_fails, agent_member,
  MemberRuns-AgentEnds,
}

pub data ProgramEnd (E : Type 0) : Type 0 where
  shutdown_complete : ProgramEnd E
  fatal : RunError E → ProgramEnd E

-- `if err := ...Run(ctx); err != nil && err != context.Canceled { log.Fatalf(...) }`
unfoldable pub main_end : {E : Type 0} → Option (RunError E) → ProgramEnd E
main_end none = shutdown_complete
main_end (some canceled) = shutdown_complete
main_end (some element_channel_closed) = fatal element_channel_closed
main_end (some (failed e)) = fatal (failed e)

-- What a program ends with where Wait gives `waited`.
abbrev pub EndsBy : {E : Type 0} → Option (RunError E) → ProgramEnd E → Type 0
EndsBy {E} waited end =
    (((waited ≡ none) ⊎ (waited ≡ some canceled)) × (end ≡ shutdown_complete))
    ⊎ ((e : RunError E) × (e ≢ canceled) × (waited ≡ some e) × (end ≡ fatal e))

main_end-EndsBy :
    {E : Type 0} (waited : Option (RunError E)) → EndsBy waited (main_end (run_result waited))
unfolding main_end run_result
main_end-EndsBy none = inl (inl refl, refl)
main_end-EndsBy (some canceled) = inl (inr refl, refl)
main_end-EndsBy (some element_channel_closed) =
    inr (element_channel_closed, (λ h. ground arith), refl, refl)
main_end-EndsBy (some (failed e)) = inr (failed e, (λ h. ground arith), refl, refl)

module _ (E : Type 0) (p : Prober) (v : IsProber p) (g : ErrGroup (RunError E))
    (h : IsErrGroup g) where
  -- If an agent's prober and gRPC server end without an error, the program ends as the stream does:
  -- with "shutdown complete" if that ends with nil or context.Canceled, and by log.Fatalf with the
  -- stream's error else.
  pub agent_main-by_stream :
      (spec : ProbingAgentSpec) (q : p.State) {s : MemberRun g (agent_member E p v)}
      → MemberRuns g
          (agent_member E p v)
          (record { manager = new_agent_manager spec; prober = q })
          s
      → HaveReturned g (agent_member E p v) s
      → first_error s.others ≡ none
      → EndsBy s.stream_result (main_end (run_result (g.wait s.progress.group)))
  agent_main-by_stream spec q {s} r all quiet =
      elim (MemberRuns-AgentEnds E p v g h spec q r all).by_stream [
        | inl (e, reported) ↦ absurd (ground arith)
        | inr same ↦ rw same (main_end-EndsBy s.stream_result)
      ]

  -- All four goroutines are at work, and none has returned.
  pub record AtWork (s : MemberRun g (agent_member E p v)) : Type 0 where
    pub works_part : s.works_part ≡ true
    pub streams : s.streams ≡ true
    pub serves_rpc : s.serves_rpc ≡ true
    pub closes_later : s.closes_later ≡ true
    pub quiet : s.others ≡ []

  -- The run `s` may go on until all goroutines have returned, and the program ends with `end`.
  abbrev pub MainEnds : MemberRun g (agent_member E p v) → ProgramEnd E → Type 0
  MainEnds s end =
      (t : MemberRun g (agent_member E p v)) × MemberGoes g (agent_member E p v) s t
      × HaveReturned g (agent_member E p v) t
      × (main_end (run_result (g.wait t.progress.group)) ≡ end)

  -- After a signal the prober and the server end without an error, and the stream with `result`.
  signalled_end :
      (spec : ProbingAgentSpec) (q : p.State) {s : MemberRun g (agent_member E p v)}
      (n : AgentState p) (result : Option (RunError E))
      → MemberRuns g
          (agent_member E p v)
          (record { manager = new_agent_manager spec; prober = q })
          s
      → AtWork s
      → AgentStreamEnds E p v true s.state n result
      → MainEnds s (main_end (run_result result))
  unfolding run_rpc_server
  signalled_end spec q {s} n result r w ends =
      let p₁ : Progress g = signalled g s.progress in
      let p₂ : Progress g = reports g none p₁ in
      let p₃ : Progress g = reports g result p₂ in
      let p₄ : Progress g = reports g none p₃ in
      let over₁ = h.cancelled-is_done s.progress.group in
      let over₂ = reports-is_done g h none p₁ over₁ in
      let over₃ = reports-is_done g h result p₂ over₂ in
      let over₄ = reports-is_done g h none p₃ over₃ in
      let way =
        goes
          (goes
            (goes (goes (goes stays is_signalled) (part_ends none w.works_part))
              (stream_ends w.streams (rw over₂ ends)))
            (rpc_ends none true none w.serves_rpc (λ e. over₃)))
          (closer_ends n w.closes_later over₄ refl) in
      let run = MemberGoes-MemberRuns g (agent_member E p v) r way in
      (
        _,
        way,
        (refl, refl, refl, refl),
        elim (MemberRuns-AgentEnds E p v g h spec q run (refl, refl, refl, refl)).by_stream [
          | inl (e, reported) ↦ absurd (ground (arith, w.quiet))
          | inr same ↦ ap (λ x. main_end (run_result x)) same
        ],
      )

  -- An agent at work, none of whose goroutines has returned, may go on at a signal in two ways. If the
  -- signal meets the stream in an attempt that then fails with `e`, the program ends by log.Fatalf
  -- with `e`; if it comes before the next attempt, it ends with "shutdown complete".
  pub signal-breaks_agent :
      (spec : ProbingAgentSpec) (q : p.State) {s : MemberRun g (agent_member E p v)} (a : Attempt E)
      (n : AgentManager) (e : E)
      → MemberRuns g
          (agent_member E p v)
          (record { manager = new_agent_manager spec; prober = q })
          s
      → AtWork s
      → run_attempt a s.state.manager ≡ (n, retries)
      → MainEnds s (fatal (failed e)) × MainEnds s shutdown_complete
  unfolding run_result main_end run_attempt
  signal-breaks_agent spec q {s} a n e r w broken =
      let late : Attempt E = record a { is_cancelled = true } in
      (
        signalled_end spec q (record s.state { manager = n }) (some (failed e)) r w
            (stream_fails a n e refl broken),
        signalled_end spec q (record s.state { manager = s.state.manager }) (some canceled) r w
            (stream_gives_up late s.state.manager refl refl),
      )
