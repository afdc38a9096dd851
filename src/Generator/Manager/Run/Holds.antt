-- ===== src/Generator/Manager/Run/Holds.antt =====
-- What the goroutines of `Run` of internal/components/generator/manager.go keep, one by one.
use iprl_poc.Common.{
  Option, some, Bool, true, ◌≡◌, refl, sym, ◌∙◌, arith, inl, inr, Option-cases, Bool-cases,
}
use iprl_poc.Common.Channel.{Channel, recv, received, recv-Recvs}
use iprl_poc.Proto.{ProbingDirectiveGeneratorSpec, ProbingDirective}
use iprl_poc.Components.{DirectiveGenerator, IsDirectiveGenerator}
use iprl_poc.Components.Group.{RunError}
use iprl_poc.Generator.Manager.{GeneratorManager, set_status, update, join_cluster, close_generator}
use iprl_poc.Generator.Manager.Attempts.{StreamAttempt, Verdict, attempt_stream}
use iprl_poc.Generator.Manager.Run.{
  GeneratorState, close_both, GeneratorWorks, updates, attempts, generates, pulls,
  GeneratorStreamEnds, stream_finishes, stream_fails,
}

-- An attempt keeps the spec and the sync.Once.
attempt_stream-keeps :
    {E : Type 0} (a : StreamAttempt E) (m n : GeneratorManager) (w : Verdict)
    → attempt_stream a m ≡ (n, w)
    → (n.current_spec ≡ m.current_spec) × (n.once_done ≡ m.once_done)
unfolding attempt_stream join_cluster set_status
attempt_stream-keeps a m n w h = ground arith

module _ (E : Type 0) (d : DirectiveGenerator) (v : IsDirectiveGenerator d) where
  -- The output is closed once Close has been called.
  pub record Holds (spec : ProbingDirectiveGeneratorSpec) (s : GeneratorState d) : Type 0 where
    pub with_spec : s.manager.current_spec ≡ some spec
    pub valid : v.Valid s.generator
    pub shut : s.manager.once_done ≡ true → (d.pull_channel s.generator).is_closed ≡ true

  abbrev pub IsShut : GeneratorState d → Type 0
  IsShut s = (s.manager.once_done ≡ true) × ((d.pull_channel s.generator).is_closed ≡ true)

  -- A pull leaves the channel open or closed as it was.
  recv-is_closed :
      (ch ch' : Channel ProbingDirective) (x : ProbingDirective)
      → recv ch ≡ received x ch'
      → ch'.is_closed ≡ ch.is_closed
  recv-is_closed ch ch' x r = elim (recv-Recvs ch) [
    | inl (_, inl e) ↦ absurd (ground arith)
    | inl (_, inr e) ↦ absurd (ground arith)
    | inr (w, rest, b, e) ↦ ground arith
  ]

  works-shut :
      {done : Bool} {s t : GeneratorState d}
      → GeneratorWorks E d done s t
      → (d.pull_channel s.generator).is_closed ≡ true
      → (d.pull_channel t.generator).is_closed ≡ true
  works-shut (updates status) h = h
  works-shut (attempts a n e) h = h
  works-shut {s = s} (generates {t = t} r) h = rw (v.runs_closed s.generator t r h) h
  works-shut {s = s} (pulls x ch r) h =
      rw (v.pulled-pull_channel s.generator ch)
        (recv-is_closed (d.pull_channel s.generator) ch x r ∙ h)

  works-once_done :
      {done : Bool} {s t : GeneratorState d}
      → GeneratorWorks E d done s t
      → t.manager.once_done ≡ s.manager.once_done
  unfolding update set_status
  works-once_done (updates status) = refl
  works-once_done {s = s} (attempts a n e) = (attempt_stream-keeps a s.manager n _ e).1
  works-once_done (generates r) = refl
  works-once_done (pulls x ch r) = refl

  works-Valid :
      {done : Bool} {s t : GeneratorState d}
      → GeneratorWorks E d done s t
      → v.Valid s.generator
      → v.Valid t.generator
  works-Valid (updates status) h = h
  works-Valid (attempts a n e) h = h
  works-Valid {s = s} (generates {t = t} r) h = v.runs-Valid s.generator t r h
  works-Valid {s = s} (pulls x ch r) h =
      v.pulled-Valid s.generator ch (recv-is_closed (d.pull_channel s.generator) ch x r) h

  works-with_spec :
      {done : Bool} {s t : GeneratorState d}
      → GeneratorWorks E d done s t
      → t.manager.current_spec ≡ s.manager.current_spec
  unfolding update set_status
  works-with_spec (updates status) = refl
  works-with_spec {s = s} (attempts a n e) = (attempt_stream-keeps a s.manager n _ e).0
  works-with_spec (generates r) = refl
  works-with_spec (pulls x ch r) = refl

  pub works-Holds :
      (spec : ProbingDirectiveGeneratorSpec) {done : Bool} {s t : GeneratorState d}
      → GeneratorWorks E d done s t
      → Holds spec s
      → Holds spec t
  works-Holds spec w h = record {
    with_spec = works-with_spec w ∙ h.with_spec;
    valid = works-Valid w h.valid;
    shut = λ e. works-shut w (h.shut (sym (works-once_done w) ∙ e));
  }

  pub works-IsShut :
      {done : Bool} {s t : GeneratorState d} → GeneratorWorks E d done s t → IsShut s → IsShut t
  works-IsShut w (once, closed) = (works-once_done w ∙ once, works-shut w closed)

  -- The end of the stream is an attempt, for the state.
  attempted-Holds :
      (spec : ProbingDirectiveGeneratorSpec) (s : GeneratorState d) (a : StreamAttempt E)
      (n : GeneratorManager) (w : Verdict)
      → attempt_stream a s.manager ≡ (n, w)
      → Holds spec s
      → Holds spec (record s { manager = n })
  attempted-Holds spec s a n w e h =
      let (same_spec, same_once) = attempt_stream-keeps a s.manager n w e in
      record {
        with_spec = same_spec ∙ h.with_spec;
        valid = h.valid;
        shut = λ o. h.shut (sym same_once ∙ o);
      }

  pub stream-Holds :
      (spec : ProbingDirectiveGeneratorSpec) {done : Bool} {s t : GeneratorState d}
      {r : Option (RunError E)}
      → GeneratorStreamEnds E d done s t r
      → Holds spec s
      → Holds spec t
  stream-Holds spec {s = s} (stream_finishes a n e) h = attempted-Holds spec s a n _ e h
  stream-Holds spec {s = s} (stream_fails a n o e) h = attempted-Holds spec s a n _ e h

  pub stream-IsShut :
      {done : Bool} {s t : GeneratorState d} {r : Option (RunError E)}
      → GeneratorStreamEnds E d done s t r
      → IsShut s
      → IsShut t
  stream-IsShut {s = s} (stream_finishes a n e) (once, closed) =
      ((attempt_stream-keeps a s.manager n _ e).1 ∙ once, closed)
  stream-IsShut {s = s} (stream_fails a n o e) (once, closed) =
      ((attempt_stream-keeps a s.manager n _ e).1 ∙ once, closed)

  -- Close closes the output, now or before.
  pub close_both-Holds :
      (spec : ProbingDirectiveGeneratorSpec) (s t : GeneratorState d)
      → close_both d s ≡ some t
      → Holds spec s
      → Holds spec t × IsShut t
  unfolding close_both close_generator
  close_both-Holds spec s t c h = elim (Bool-cases s.manager.once_done) [
    | inl again ↦ let same : s ≡ t = ground arith in rw (← same) (h, (again, h.shut again))
    | inr first ↦ elim (Option-cases (d.close s.generator)) [
      | inl e ↦ absurd (ground arith)
      | inr (u, e) ↦
          let after : GeneratorState d = record {
            manager = record s.manager { once_done = true };
            generator = u;
          } in
          let same : after ≡ t = ground arith in
          let closed = (v.close-pull_channel s.generator u e h.valid).0 in
          rw (← same) (
            record {
              with_spec = h.with_spec;
              valid = v.close-Valid s.generator u e h.valid;
              shut = λ o. closed;
            },
            (refl, closed),
          )
    ]
  ]
