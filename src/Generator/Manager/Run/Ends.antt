-- ===== src/Generator/Manager/Run/Ends.antt =====
-- What holds when `Run` of internal/components/generator/manager.go has ended.
use iprl_poc.Common.{
  [], ◌∷◌, Option, none, some, true, ◌≡◌, refl, ◌∙◌, arith, ◌⊎◌, inl, inr, Text, Option-cases,
}
use iprl_poc.Proto.{ProbingDirectiveGeneratorSpec}
use iprl_poc.Components.{DirectiveGenerator, IsDirectiveGenerator}
use iprl_poc.Components.Group.{
  ErrGroup, IsErrGroup, first_error, RunError, canceled, run_result, Filters, run_result-Filters,
}
use iprl_poc.Components.Member.{
  leave_calls, MemberRun, MemberRuns, is_stopping, HaveReturned, start, next, is_signalled, works,
  part_ends, stream_ends, rpc_ends, closer_ends,
}
use iprl_poc.Components.Member.Outcome.{Keeps, MemberRuns-Outcome}
use iprl_poc.Generator.Manager.{new_generator_manager, leave_cluster}
use iprl_poc.Generator.Manager.Run.{GeneratorState, generator_member, stream_finishes, stream_fails}
use iprl_poc.Generator.Manager.Run.Holds.{
  Holds, IsShut, works-Holds, works-IsShut, stream-Holds, stream-IsShut, close_both-Holds,
}

module _ (E : Type 0) (d : DirectiveGenerator) (v : IsDirectiveGenerator d) where
  leave_calls-generator :
      (spec : ProbingDirectiveGeneratorSpec) (s : GeneratorState d)
      → Holds E d v spec s
      → (leave_calls (leave_cluster s.manager) ≡ [])
        ⊎ ((uuid : Text) × (leave_calls (leave_cluster s.manager)
              ≡ (spec.orchestrator_address, uuid) ∷ []))
  unfolding leave_cluster
  leave_calls-generator spec s h = elim (Option-cases s.manager.current_status) [
    | inl e ↦ inl (rw e refl)
    | inr (status, e) ↦ inr (status.uuid, rw (e, h.with_spec) refl)
  ]

  module _ (g : ErrGroup (RunError E)) (h : IsErrGroup g) where
    -- How Run stands when Wait returns.
    pub record GeneratorEnds (spec : ProbingDirectiveGeneratorSpec)
        (s : MemberRun g (generator_member E d)) : Type 0 where
      pub over : is_stopping g (generator_member E d) s ≡ true
      pub closed : (d.pull_channel s.state.generator).is_closed ≡ true
      pub left_once :
          (s.left ≡ []) ⊎ ((uuid : Text) × (s.left ≡ (spec.orchestrator_address, uuid) ∷ []))
      pub result : Filters (first_error s.progress.returned) (run_result (g.wait s.progress.group))
      pub by_others :
          ((e : RunError E) × (first_error s.others ≡ some e))
          ⊎ (run_result (g.wait s.progress.group) ≡ none)

    -- The stream ends with nil or with the error of the context.
    stream_result-cases :
        {begin : GeneratorState d} {s : MemberRun g (generator_member E d)}
        → MemberRuns g (generator_member E d) begin s
        → (s.stream_result ≡ none) ⊎ (s.stream_result ≡ some canceled)
    stream_result-cases start = inl refl
    stream_result-cases (next r is_signalled) = stream_result-cases r
    stream_result-cases (next r (works w)) = stream_result-cases r
    stream_result-cases (next r (part_ends result e)) = stream_result-cases r
    stream_result-cases (next r (stream_ends e (stream_finishes a n w))) = inl refl
    stream_result-cases (next r (stream_ends e (stream_fails a n o w))) = inr refl
    stream_result-cases (next r (rpc_ends listen in_time serve e c)) = stream_result-cases r
    stream_result-cases (next r (closer_ends t e o c)) = stream_result-cases r

    -- Then Run returns nil.
    quiet_result :
        (waited result : Option (RunError E))
        → waited ≡ result
        → (result ≡ none) ⊎ (result ≡ some canceled)
        → run_result waited ≡ none
    unfolding run_result
    quiet_result waited result same (inl nil) = rw (same ∙ nil) refl
    quiet_result waited result same (inr over) = rw (same ∙ over) refl

    -- When all goroutines of a generator's Run have returned: the context is done, the directive
    -- generator's channel is closed, the generator has made one Leave call, to the orchestrator of its
    -- spec, or none; Run returns nil if the first error is context.Canceled or there is none, and else
    -- that error; and it returns nil unless the directive generator or the server fails, also where the
    -- signal has broken the stream.
    pub MemberRuns-GeneratorEnds :
        (spec : ProbingDirectiveGeneratorSpec) (q : d.State)
        {s : MemberRun g (generator_member E d)}
        → v.Valid q
        → MemberRuns g
            (generator_member E d)
            (record { manager = new_generator_manager spec; generator = q })
            s
        → HaveReturned g (generator_member E d) s
        → GeneratorEnds spec s
    unfolding new_generator_manager
    MemberRuns-GeneratorEnds spec q {s} valid r all =
        let keeps : Keeps g (generator_member E d) (Holds E d v spec) (IsShut E d v) = record {
          works-P = works-Holds E d v spec;
          works-Q = works-IsShut E d v;
          stream-P = stream-Holds E d v spec;
          stream-Q = stream-IsShut E d v;
          close-P = λ t u c e. (close_both-Holds E d v spec t u c e).0;
          close-Q = λ t u c e. (close_both-Holds E d v spec t u c e).1;
        } in
        let start_state : GeneratorState d = record {
          manager = new_generator_manager spec;
          generator = q;
        } in
        let begin : Holds E d v spec start_state = record {
          with_spec = refl;
          valid = valid;
          shut = λ e. absurd (ground arith);
        } in
        let o = MemberRuns-Outcome g (generator_member E d) h keeps begin r all in
        record {
          over = o.over;
          closed = o.closed.1;
          left_once = elim (leave_calls-generator spec o.left_from o.left_held) [
            | inl none_left ↦ inl (o.left_once ∙ none_left)
            | inr (uuid, calls) ↦ inr (uuid, o.left_once ∙ calls)
          ];
          result = rw o.waits (run_result-Filters (first_error s.progress.returned));
          by_others = elim (Option-cases (first_error s.others)) [
            | inl quiet ↦ inr (
                quiet_result (g.wait s.progress.group) s.stream_result (o.led quiet)
                  (stream_result-cases r))
            | inr some_error ↦ inl some_error
          ];
        }
