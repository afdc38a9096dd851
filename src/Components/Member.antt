-- ===== src/Components/Member.antt =====
-- What `Run` does alike in internal/components/agent/manager.go and generator/manager.go: four
-- goroutines in an errgroup, which work a part (the prober or the directive generator), keep a stream
-- to the orchestrator, serve gRPC, and leave the cluster at the end.
pub mod Outcome
use iprl_poc.Common.{
  List, [], ◌∷◌, ◌++◌, Option, none, some, Bool, true, false, ◌≡◌, refl, arith, ◌⊎◌, inl, inr, Text,
}
use iprl_poc.Components.Group.{
  ErrGroup, IsErrGroup, Progress, started, reports, signalled, WaitsFirst, reports-WaitsFirst,
  reports-is_done, or_else, first_error, first_error-append, RunError, failed, run_result,
}
use iprl_poc.Components.Serving.{StopCall}

-- The state of a manager with its part, and what moves it: the steps beside the goroutines' ends, the
-- end of the function that keeps the stream (with whether the context is done by then, and its
-- result), its runRPCServer, the address and uuid of the Leave call, and Close, which is none where it panics.
pub record Member (E : Type 0) : Type 1 where
  pub State : Type 0
  pub Works : Bool → State → State → Type 0
  pub StreamEnds : Bool → State → State → Option (RunError E) → Type 0
  pub serve : Option E → Bool → Option E → List StopCall × Option (RunError E)
  pub leave : State → Option (Text × Text)
  pub close : State → Option State

-- The Leave calls made.
abbrev pub leave_calls : Option (Text × Text) → List (Text × Text)
leave_calls none = []
leave_calls (some call) = call ∷ []

abbrev pub part_result : {E : Type 0} → Option E → Option (RunError E)
part_result none = none
part_result (some e) = some (failed e)

module _ {E : Type 0} (g : ErrGroup (RunError E)) (m : Member E) where
  -- `others` has the results of the part, the server and the closing goroutine.
  pub record MemberRun : Type 0 where
    pub progress : Progress g
    pub state : m.State
    pub left : List (Text × Text)
    pub stream_result : Option (RunError E)
    pub others : List (Option (RunError E))
    pub works_part : Bool
    pub streams : Bool
    pub serves_rpc : Bool
    pub closes_later : Bool

  abbrev pub starts_member : m.State → MemberRun
  starts_member s = record {
    progress = started g;
    state = s;
    left = [];
    stream_result = none;
    others = [];
    works_part = true;
    streams = true;
    serves_rpc = true;
    closes_later = true;
  }

  abbrev pub is_stopping : MemberRun → Bool
  is_stopping s = g.is_done s.progress.group

  pub data MemberStep (s : MemberRun) : MemberRun → Type 0 where
    is_signalled : MemberStep s (record s { progress = signalled g s.progress })
    works :
        {t : m.State} → m.Works (is_stopping s) s.state t → MemberStep s (record s { state = t })
    part_ends :
        (result : Option E)
        → s.works_part ≡ true
        → MemberStep s (record s {
          progress = reports g (part_result result) s.progress;
          others = s.others ++ part_result result ∷ [];
          works_part = false;
        })
    stream_ends :
        {t : m.State} {result : Option (RunError E)}
        → s.streams ≡ true
        → m.StreamEnds (is_stopping s) s.state t result
        → MemberStep s (record s {
          progress = reports g result s.progress;
          state = t;
          stream_result = result;
          streams = false;
        })
    rpc_ends :
        (listen : Option E) (in_time : Bool) (serve : Option E)
        → s.serves_rpc ≡ true
        → ((m.serve listen in_time serve).1 ≡ none → is_stopping s ≡ true)
        → MemberStep s (record s {
          progress = reports g ((m.serve listen in_time serve).1) s.progress;
          others = s.others ++ (m.serve listen in_time serve).1 ∷ [];
          serves_rpc = false;
        })
    closer_ends :
        (t : m.State)
        → s.closes_later ≡ true
        → is_stopping s ≡ true
        → m.close s.state ≡ some t
        → MemberStep s (record s {
          progress = reports g none s.progress;
          state = t;
          left = s.left ++ leave_calls (m.leave s.state);
          others = s.others ++ none ∷ [];
          closes_later = false;
        })

  pub data MemberRuns (begin : m.State) : MemberRun → Type 0 where
    start : MemberRuns begin (starts_member begin)
    next : {s t : MemberRun} → MemberRuns begin s → MemberStep s t → MemberRuns begin t

  -- How a run may go on.
  pub data MemberGoes (s : MemberRun) : MemberRun → Type 0 where
    stays : MemberGoes s s
    goes : {t u : MemberRun} → MemberGoes s t → MemberStep t u → MemberGoes s u

  pub MemberGoes-MemberRuns :
      {begin : m.State} {s t : MemberRun} → MemberRuns begin s → MemberGoes s t → MemberRuns begin t
  MemberGoes-MemberRuns r stays = r
  MemberGoes-MemberRuns r (goes w step) = next (MemberGoes-MemberRuns r w) step

  abbrev pub HaveReturned : MemberRun → Type 0
  HaveReturned s =
      (s.works_part ≡ false)
      × (s.streams ≡ false)
      × (s.serves_rpc ≡ false)
      × (s.closes_later ≡ false)
