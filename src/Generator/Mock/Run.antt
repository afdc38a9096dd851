-- ===== src/Generator/Mock/Run.antt =====
-- The channel, Run and Close of internal/components/generator/mock_directive_generator.go.
use iprl_poc.Common.{
  ℕ, Option, none, some, Bool, true, false, ◌≡◌, refl, sym, ◌∙◌, inl, inr, arith, if◌then◌else◌,
  Option-cases, Bool-cases,
}
use iprl_poc.Common.Draws.{Rng}
use iprl_poc.Common.Channel.{Channel, make, sent, send_blocks, send_panics, send, close}
use iprl_poc.Proto.{
  ProbingDirectiveGeneratorSpec, ProbingDirectiveGeneratorStatus, ProbingDirective,
}
use iprl_poc.Components.{DirectiveGenerator, IsDirectiveGenerator}
use iprl_poc.Components.Output.{IsOutput, IsOutput-Emits, IsOutput-closed}
use iprl_poc.Generator.Mock.{generate_directive, no_directive, directive, generate_panics}

-- `held` is the directive that Run has made and not sent yet; `draws` counts the draws made.
pub record MockDirectiveGenerator : Type 0 where
  pub out_ch : Channel ProbingDirective
  pub closed : Bool
  pub held : Option ProbingDirective
  pub draws : ℕ

unfoldable pub new_mock_directive_generator : ℕ → MockDirectiveGenerator
unfolding make
new_mock_directive_generator buffer = record {
  out_ch = make buffer;
  closed = false;
  held = none;
  draws = 0;
}

pub data GeneratorTurn : Type 0 where
  goes_on : MockDirectiveGenerator → GeneratorTurn
  run_returns : GeneratorTurn
  run_waits : GeneratorTurn
  run_panics : GeneratorTurn

-- The default case of the outer select: a directive is made, or the loop starts again.
unfoldable pub make_directive :
    Rng
    → ProbingDirectiveGeneratorSpec
    → Option ProbingDirectiveGeneratorStatus
    → MockDirectiveGenerator
    → GeneratorTurn
make_directive rng spec status s = elim (generate_directive rng spec status s.draws) [
  | no_directive ↦ goes_on s
  | directive d i ↦ goes_on (record s { held = some d; draws = i })
  | generate_panics ↦ run_panics
]

-- The inner select sends it.
unfoldable pub put_directive : ProbingDirective → MockDirectiveGenerator → GeneratorTurn
put_directive d s = elim (send s.out_ch d) [
  | sent ch ↦ goes_on (record s { out_ch = ch; held = none })
  | send_blocks ↦ run_waits
  | send_panics ↦ run_panics
]

-- A round of Run up to its next select, with the manager's spec and status at that time; `done` says
-- that the select takes one of its Done cases.
unfoldable pub run_mock_directive_generator :
    Rng
    → ProbingDirectiveGeneratorSpec
    → Option ProbingDirectiveGeneratorStatus
    → Bool
    → MockDirectiveGenerator
    → GeneratorTurn
unfolding make_directive put_directive
run_mock_directive_generator rng spec status done s =
    if done
    then run_returns
    else elim s.held [ none ↦ make_directive rng spec status s | some d ↦ put_directive d s ]

-- None is the panic of closing a closed channel.
unfoldable pub close_mock_directive_generator :
    MockDirectiveGenerator → Option MockDirectiveGenerator
close_mock_directive_generator s = if s.closed then some s else elim (close s.out_ch) [
  | none ↦ none
  | some ch ↦ some (record s { closed = true; out_ch = ch })
]

-- The flag and the channel that Close sets are in step.
abbrev pub IsInStep : MockDirectiveGenerator → Type 0
IsInStep s = s.out_ch.is_closed ≡ s.closed

-- A step of Run, with the spec and the status of its time.
pub record GeneratorRuns (rng : Rng) (s t : MockDirectiveGenerator) : Type 0 where
  pub spec : ProbingDirectiveGeneratorSpec
  pub status : Option ProbingDirectiveGeneratorStatus
  pub goes : run_mock_directive_generator rng spec status false s ≡ goes_on t

abbrev pub mock_directive_generator : Rng → DirectiveGenerator
mock_directive_generator rng = record {
  State = MockDirectiveGenerator;
  pull_channel = λ s. s.out_ch;
  pulled = λ s ch. record s { out_ch = ch };
  Runs = GeneratorRuns rng;
  Returns = λ s.
      (spec : ProbingDirectiveGeneratorSpec) (status : Option ProbingDirectiveGeneratorStatus)
      → run_mock_directive_generator rng spec status true s ≡ run_returns;
  close = close_mock_directive_generator;
}

pub record GeneratorStep (s t : MockDirectiveGenerator) : Type 0 where
  pub same_flag : t.closed ≡ s.closed
  pub output : IsOutput s.out_ch t.out_ch

make_directive-GeneratorStep :
    (rng : Rng) (spec : ProbingDirectiveGeneratorSpec)
    (status : Option ProbingDirectiveGeneratorStatus) (s t : MockDirectiveGenerator)
    → make_directive rng spec status s ≡ goes_on t
    → GeneratorStep s t
unfolding make_directive
make_directive-GeneratorStep rng spec status s t h = record {
  same_flag = ground arith;
  output = inl (ground arith);
}

put_directive-GeneratorStep :
    (d : ProbingDirective) (s t : MockDirectiveGenerator)
    → put_directive d s ≡ goes_on t
    → GeneratorStep s t
unfolding put_directive send
put_directive-GeneratorStep d s t h = record {
  same_flag = ground arith;
  output = inr (d, ground arith, ground arith);
}

pub GeneratorRuns-GeneratorStep :
    (rng : Rng) (s t : MockDirectiveGenerator) → GeneratorRuns rng s t → GeneratorStep s t
unfolding run_mock_directive_generator
GeneratorRuns-GeneratorStep rng s t r = elim (Option-cases s.held) [
  | inl idle ↦
      make_directive-GeneratorStep rng r.spec r.status s t
        (rw (idle, run_mock_directive_generator) at r.goes)
  | inr (d, full) ↦
      put_directive-GeneratorStep d s t (rw (full, run_mock_directive_generator) at r.goes)
]

pub GeneratorStep-IsInStep :
    (s t : MockDirectiveGenerator) → GeneratorStep s t → IsInStep s → IsInStep t
GeneratorStep-IsInStep s t m v =
    let same = (IsOutput-Emits s.out_ch t.out_ch m.output).same_state in cc (same, m.same_flag, v)

pub close_mock_directive_generator-closes :
    (s t : MockDirectiveGenerator)
    → close_mock_directive_generator s ≡ some t
    → IsInStep s
    → (t.out_ch.is_closed ≡ true) × (t.closed ≡ true) × (t.out_ch.buffer ≡ s.out_ch.buffer)
unfolding close_mock_directive_generator close
close_mock_directive_generator-closes s t h v = (ground arith, ground arith, ground arith)

pub close_mock_directive_generator_again :
    (s t : MockDirectiveGenerator)
    → close_mock_directive_generator s ≡ some t
    → close_mock_directive_generator t ≡ some t
unfolding close_mock_directive_generator
close_mock_directive_generator_again s t h = ground arith

pub close_mock_directive_generator_works :
    (s : MockDirectiveGenerator)
    → IsInStep s
    → (t : MockDirectiveGenerator) × (close_mock_directive_generator s ≡ some t)
unfolding close_mock_directive_generator close
close_mock_directive_generator_works s v = elim (Bool-cases s.closed) [
  | inl shut ↦ (s, rw shut refl)
  | inr is_open ↦
      (record s { closed = true; out_ch = record s.out_ch { is_closed = true } }, ground arith)
]

pub stops_when_done :
    (rng : Rng) (s : MockDirectiveGenerator) (spec : ProbingDirectiveGeneratorSpec)
    (status : Option ProbingDirectiveGeneratorStatus)
    → run_mock_directive_generator rng spec status true s ≡ run_returns
unfolding run_mock_directive_generator
stops_when_done rng s spec status = refl

-- What the contract asks, law by law.
unfoldable pub mock_directive_generator_laws :
    (rng : Rng) → IsDirectiveGenerator (mock_directive_generator rng)
mock_directive_generator_laws rng = record {
  Valid = IsInStep;
  pulled-Valid = λ s ch same v. same ∙ v;
  pulled-pull_channel = λ s ch. refl;
  runs-Valid = λ s t r v. GeneratorStep-IsInStep s t (GeneratorRuns-GeneratorStep rng s t r) v;
  runs-Emits =
      λ s t r. IsOutput-Emits s.out_ch t.out_ch (GeneratorRuns-GeneratorStep rng s t r).output;
  runs_closed = λ s t r shut.
      IsOutput-closed s.out_ch t.out_ch (GeneratorRuns-GeneratorStep rng s t r).output shut;
  stops = stops_when_done rng;
  close_works = close_mock_directive_generator_works;
  close-Valid = λ s t h v.
      let (shut, flag, kept) = close_mock_directive_generator-closes s t h v in shut ∙ sym flag;
  close-pull_channel = λ s t h v.
      let (shut, flag, kept) = close_mock_directive_generator-closes s t h v in (shut, kept);
  close_again = λ s t h. close_mock_directive_generator_again s t h;
}

pub mock_directive_generator-IsDirectiveGenerator :
    (rng : Rng) → IsDirectiveGenerator (mock_directive_generator rng)
mock_directive_generator-IsDirectiveGenerator rng = mock_directive_generator_laws rng
