-- ===== src/Components/Member/Outcome.antt =====
-- What holds when `Run` of a manager under internal/components/agent or generator has ended.
use iprl_poc.Common.{
  List, [], ◌∷◌, ◌++◌, Option, none, some, Bool, true, false, ◌≡◌, refl, sym, ◌∙◌, arith, Text,
}
use iprl_poc.Components.Group.{
  ErrGroup, IsErrGroup, reports, WaitsFirst, reports-WaitsFirst, reports-is_done, or_else,
  or_else-none, or_else-nil, first_error, first_error-append, RunError,
}
use iprl_poc.Components.Member.{
  Member, leave_calls, part_result, MemberRun, is_stopping, MemberStep, is_signalled, works,
  part_ends, stream_ends, rpc_ends, closer_ends, MemberRuns, start, next, HaveReturned,
}

module _ {E : Type 0} (g : ErrGroup (RunError E)) (m : Member E) where
  -- Predicates that the manager's steps keep; Close establishes the second.
  pub record Keeps (P Q : m.State → Type 0) : Type 0 where
    pub works-P : {d : Bool} {s t : m.State} → m.Works d s t → P s → P t
    pub works-Q : {d : Bool} {s t : m.State} → m.Works d s t → Q s → Q t
    pub stream-P :
        {d : Bool} {s t : m.State} {r : Option (RunError E)} → m.StreamEnds d s t r → P s → P t
    pub stream-Q :
        {d : Bool} {s t : m.State} {r : Option (RunError E)} → m.StreamEnds d s t r → Q s → Q t
    pub close-P : (s t : m.State) → m.close s ≡ some t → P s → P t
    pub close-Q : (s t : m.State) → m.close s ≡ some t → P s → Q t

  -- The state of the closing goroutine: it has not left, or it has left once, from a state with `P`.
  abbrev Leaving : (P Q : m.State → Type 0) → List (Text × Text) → m.State → Bool → Bool → Type 0
  Leaving P Q left t over true = left ≡ []
  Leaving P Q left t over false =
      Q t × (over ≡ true) × (u : m.State) × P u × (left ≡ leave_calls (m.leave u))

  -- Another goroutine than the stream reports `r`.
  others_led :
      (r : Option (RunError E)) (returned others : List (Option (RunError E)))
      (result : Option (RunError E))
      → (first_error others ≡ none → first_error returned ≡ result)
      → first_error (others ++ r ∷ []) ≡ none
      → first_error (returned ++ r ∷ []) ≡ result
  others_led r returned others result led quiet =
      let before : or_else (first_error others) r ≡ none =
        sym (first_error-append others r) ∙ quiet in
      let (a, b) = or_else-none (first_error others) r before in
      rw (first_error-append returned r, b) (or_else-nil (first_error returned) ∙ led a)

  record Invariant (P Q : m.State → Type 0) (s : MemberRun g m) : Type 0 where
    holds : P s.state
    waits : WaitsFirst g s.progress
    not_yet : s.streams ≡ true → s.stream_result ≡ none
    led : first_error s.others ≡ none → first_error s.progress.returned ≡ s.stream_result
    leaving : Leaving P Q s.left s.state (is_stopping g m s) s.closes_later

  module _ (h : IsErrGroup g) {P Q : m.State → Type 0} (k : Keeps P Q) where
    -- A report, and a step of the manager, keep what is known of the closing goroutine.
    Leaving-moves :
        (left : List (Text × Text)) (s t : m.State) (over over' b : Bool)
        → (Q s → Q t)
        → (over ≡ true → over' ≡ true)
        → Leaving P Q left s over b
        → Leaving P Q left t over' b
    Leaving-moves left s t over over' true q d l = l
    Leaving-moves left s t over over' false q d (l, done, u, p, calls) = (q l, d done, u, p, calls)

    reports-Invariant :
        (r : Option (RunError E)) (s t : MemberRun g m)
        → Invariant P Q s
        → t.progress ≡ reports g r s.progress
        → t.others ≡ s.others ++ r ∷ []
        → t.state ≡ s.state
        → t.left ≡ s.left
        → t.stream_result ≡ s.stream_result
        → t.streams ≡ s.streams
        → t.closes_later ≡ s.closes_later
        → Invariant P Q t
    reports-Invariant r s t i p o e left result streams closes = record {
      holds = rw e i.holds;
      waits = rw p (reports-WaitsFirst g h r s.progress i.waits);
      not_yet = λ w. result ∙ i.not_yet (sym streams ∙ w);
      led = rw (p, o, result) (others_led r s.progress.returned s.others s.stream_result i.led);
      leaving =
          rw (closes, left, e)
            (Leaving-moves _ _ _ _ _ s.closes_later (λ q. q)
              (λ d. rw p (reports-is_done g h r s.progress d)) i.leaving);
    }

    MemberStep-Invariant :
        {s t : MemberRun g m} → MemberStep g m s t → Invariant P Q s → Invariant P Q t
    MemberStep-Invariant {s} is_signalled i = record {
      holds = i.holds;
      waits = rw (h.cancelled-wait s.progress.group) i.waits;
      not_yet = i.not_yet;
      led = i.led;
      leaving =
          Leaving-moves _ _ _ _ _ s.closes_later (λ q. q)
            (λ d. h.cancelled-is_done s.progress.group) i.leaving;
    }
    MemberStep-Invariant {s} (works w) i = record {
      holds = k.works-P w i.holds;
      waits = i.waits;
      not_yet = i.not_yet;
      led = i.led;
      leaving = Leaving-moves _ _ _ _ _ s.closes_later (λ q. k.works-Q w q) (λ d. d) i.leaving;
    }
    MemberStep-Invariant {s} (part_ends result e) i =
        reports-Invariant (part_result result) s _ i refl refl refl refl refl refl refl
    MemberStep-Invariant {s} (rpc_ends listen in_time serve e c) i =
        reports-Invariant (m.serve listen in_time serve).1 s _ i refl refl refl refl refl refl refl
    MemberStep-Invariant {s} (stream_ends {result = result} e w) i = record {
      holds = k.stream-P w i.holds;
      waits = reports-WaitsFirst g h result s.progress i.waits;
      not_yet = λ d. absurd (ground arith);
      led = λ quiet.
          rw (first_error-append s.progress.returned result, i.led quiet, i.not_yet e) refl;
      leaving =
          Leaving-moves _ _ _ _ _ s.closes_later (λ q. k.stream-Q w q)
            (λ d. reports-is_done g h result s.progress d) i.leaving;
    }
    MemberStep-Invariant {s} (closer_ends t e d c) i =
        let stayed : s.left ≡ [] = rw e at i.leaving in
        record {
          holds = k.close-P s.state t c i.holds;
          waits = reports-WaitsFirst g h none s.progress i.waits;
          not_yet = i.not_yet;
          led = others_led none s.progress.returned s.others s.stream_result i.led;
          leaving = (
            k.close-Q s.state t c i.holds,
            reports-is_done g h none s.progress d,
            s.state,
            i.holds,
            rw stayed refl,
          );
        }

    MemberRuns-Invariant :
        {begin : m.State} {s : MemberRun g m} → P begin → MemberRuns g m begin s → Invariant P Q s
    MemberRuns-Invariant p start = record {
      holds = p;
      waits = h.start-wait;
      not_yet = λ e. refl;
      led = λ e. refl;
      leaving = refl;
    }
    MemberRuns-Invariant p (next r s) = MemberStep-Invariant s (MemberRuns-Invariant p r)

    -- The state in which Wait returns.
    pub record Outcome (s : MemberRun g m) : Type 0 where
      pub over : is_stopping g m s ≡ true
      pub holds : P s.state
      pub closed : Q s.state
      pub left_from : m.State
      pub left_held : P left_from
      pub left_once : s.left ≡ leave_calls (m.leave left_from)
      pub waits : g.wait s.progress.group ≡ first_error s.progress.returned
      pub led : first_error s.others ≡ none → g.wait s.progress.group ≡ s.stream_result

    -- When the four goroutines have returned, the context is done, the manager is closed, it has made
    -- the Leave call of one of its states, once, and Wait returns the first error; if the part and
    -- the server report none, that is what the stream reports.
    pub MemberRuns-Outcome :
        {begin : m.State} {s : MemberRun g m}
        → P begin
        → MemberRuns g m begin s
        → HaveReturned g m s
        → Outcome s
    MemberRuns-Outcome {s = s} p r (part, streams, rpc, closes) =
        let i = MemberRuns-Invariant p r in
        let (closed, over, from, held, left) = rw closes at i.leaving in
        record {
          over = over;
          holds = i.holds;
          closed = closed;
          left_from = from;
          left_held = held;
          left_once = left;
          waits = i.waits;
          led = λ quiet. i.waits ∙ i.led quiet;
        }
