-- ===== src/Agent/MockProber/Run.antt =====
-- The channels, Run and Close of internal/components/agent/mock_prober.go.
use iprl_poc.Common.{
  ℕ, Option, none, some, Bool, true, false, ◌≡◌, refl, sym, ◌∙◌, inl, inr, arith, if◌then◌else◌,
  Option-cases, Bool-cases,
}
use iprl_poc.Common.Channel.{
  Channel, make, sent, send_blocks, send_panics, received, drained, recv_blocks, send, recv, close,
}
use iprl_poc.Proto.{ProbingAgentSpec, ProbingDirective, ForwardingInfoElement}
use iprl_poc.Components.{Prober, IsProber}
use iprl_poc.Components.Output.{IsOutput, IsOutput-Emits, IsOutput-closed}
use iprl_poc.Agent.MockProber.{Draws, generate_element}

-- `held` is the element that Run has made and not sent yet; `draws` counts the draws made.
pub record MockProber : Type 0 where
  pub in_ch : Channel ProbingDirective
  pub out_ch : Channel ForwardingInfoElement
  pub closed : Bool
  pub held : Option ForwardingInfoElement
  pub draws : ℕ

unfoldable pub new_mock_prober : ℕ → MockProber
unfolding make
new_mock_prober buffer = record {
  in_ch = make buffer;
  out_ch = make buffer;
  closed = false;
  held = none;
  draws = 0;
}

pub data MockTurn : Type 0 where
  goes_on : MockProber → MockTurn
  run_returns : MockTurn
  run_waits : MockTurn
  run_panics : MockTurn

-- The first select of the loop takes a directive, and the element for it is made.
unfoldable pub take_directive : Draws → ℕ → Option ProbingAgentSpec → MockProber → MockTurn
take_directive draws now spec s = elim (recv s.in_ch) [
  | received d ch ↦ elim (generate_element draws now spec d s.draws) [
    | none ↦ run_panics
    | some (e, i) ↦ goes_on (record s { in_ch = ch; held = some e; draws = i })
  ]
  | drained ↦ run_returns
  | recv_blocks ↦ run_waits
]

-- The second select sends it.
unfoldable pub put_element : ForwardingInfoElement → MockProber → MockTurn
put_element e s = elim (send s.out_ch e) [
  | sent ch ↦ goes_on (record s { out_ch = ch; held = none })
  | send_blocks ↦ run_waits
  | send_panics ↦ run_panics
]

-- A round of Run up to its next select; `done` says that the select takes one of its Done cases.
unfoldable pub run_mock_prober : Draws → ℕ → Option ProbingAgentSpec → Bool → MockProber → MockTurn
unfolding take_directive put_element
run_mock_prober draws now spec done s =
    if done
    then run_returns
    else elim s.held [ none ↦ take_directive draws now spec s | some e ↦ put_element e s ]

-- None is the panic of closing a closed channel.
unfoldable pub close_mock_prober : MockProber → Option MockProber
close_mock_prober s = if s.closed then some s else elim (close s.out_ch) [
  | none ↦ none
  | some ch ↦ some (record s { closed = true; out_ch = ch })
]

-- The flag and the channel that Close sets are in step.
abbrev pub IsInStep : MockProber → Type 0
IsInStep s = s.out_ch.is_closed ≡ s.closed

-- A step of Run, at some time and with the agent's spec at that time.
pub record MockRuns (draws : Draws) (s t : MockProber) : Type 0 where
  pub now : ℕ
  pub spec : Option ProbingAgentSpec
  pub goes : run_mock_prober draws now spec false s ≡ goes_on t

abbrev pub mock_prober : Draws → Prober
mock_prober draws = record {
  State = MockProber;
  push_channel = λ s. s.in_ch;
  pull_channel = λ s. s.out_ch;
  pushed = λ s ch. record s { in_ch = ch };
  pulled = λ s ch. record s { out_ch = ch };
  Runs = MockRuns draws;
  Returns = λ s.
      (now : ℕ) (spec : Option ProbingAgentSpec)
      → run_mock_prober draws now spec true s ≡ run_returns;
  Released = λ s. (s.closed ≡ true) × (s.out_ch.is_closed ≡ true);
  close = close_mock_prober;
}

pub record MockStep (s t : MockProber) : Type 0 where
  pub same_flag : t.closed ≡ s.closed
  pub output : IsOutput s.out_ch t.out_ch

take_directive-MockStep :
    (draws : Draws) (now : ℕ) (spec : Option ProbingAgentSpec) (s t : MockProber)
    → take_directive draws now spec s ≡ goes_on t
    → MockStep s t
unfolding take_directive
take_directive-MockStep draws now spec s t h = record {
  same_flag = ground arith;
  output = inl (ground arith);
}

put_element-MockStep :
    (e : ForwardingInfoElement) (s t : MockProber) → put_element e s ≡ goes_on t → MockStep s t
unfolding put_element send
put_element-MockStep e s t h = record {
  same_flag = ground arith;
  output = inr (e, ground arith, ground arith);
}

pub MockRuns-MockStep : (draws : Draws) (s t : MockProber) → MockRuns draws s t → MockStep s t
unfolding run_mock_prober
MockRuns-MockStep draws s t r = elim (Option-cases s.held) [
  | inl idle ↦ take_directive-MockStep draws r.now r.spec s t (rw (idle, run_mock_prober) at r.goes)
  | inr (e, full) ↦ put_element-MockStep e s t (rw (full, run_mock_prober) at r.goes)
]

pub MockStep-IsInStep : (s t : MockProber) → MockStep s t → IsInStep s → IsInStep t
MockStep-IsInStep s t m v =
    let same = (IsOutput-Emits s.out_ch t.out_ch m.output).same_state in cc (same, m.same_flag, v)

pub close_mock_prober-closes :
    (s t : MockProber)
    → close_mock_prober s ≡ some t
    → IsInStep s
    → (t.out_ch.is_closed ≡ true) × (t.closed ≡ true) × (t.out_ch.buffer ≡ s.out_ch.buffer)
unfolding close_mock_prober close
close_mock_prober-closes s t h v = (ground arith, ground arith, ground arith)

pub close_mock_prober_again :
    (s t : MockProber) → close_mock_prober s ≡ some t → close_mock_prober t ≡ some t
unfolding close_mock_prober
close_mock_prober_again s t h = ground arith

pub close_mock_prober_works :
    (s : MockProber) → IsInStep s → (t : MockProber) × (close_mock_prober s ≡ some t)
unfolding close_mock_prober close
close_mock_prober_works s v = elim (Bool-cases s.closed) [
  | inl shut ↦ (s, rw shut refl)
  | inr is_open ↦
      (record s { closed = true; out_ch = record s.out_ch { is_closed = true } }, ground arith)
]

pub stops_when_done :
    (draws : Draws) (s : MockProber) (now : ℕ) (spec : Option ProbingAgentSpec)
    → run_mock_prober draws now spec true s ≡ run_returns
unfolding run_mock_prober
stops_when_done draws s now spec = refl

-- What the contract asks, law by law.
unfoldable pub mock_prober_laws : (draws : Draws) → IsProber (mock_prober draws)
mock_prober_laws draws = record {
  Valid = IsInStep;
  pushed-Valid = λ s ch v. v;
  pushed-pull_channel = λ s ch. refl;
  pulled-Valid = λ s ch same v. same ∙ v;
  pulled-pull_channel = λ s ch. refl;
  runs-Valid = λ s t r v. MockStep-IsInStep s t (MockRuns-MockStep draws s t r) v;
  runs-Emits = λ s t r. IsOutput-Emits s.out_ch t.out_ch (MockRuns-MockStep draws s t r).output;
  runs_closed =
      λ s t r shut. IsOutput-closed s.out_ch t.out_ch (MockRuns-MockStep draws s t r).output shut;
  stops = stops_when_done draws;
  close_works = close_mock_prober_works;
  close-Released =
      λ s t h v. let (shut, flag, kept) = close_mock_prober-closes s t h v in (flag, shut);
  close-Valid =
      λ s t h v. let (shut, flag, kept) = close_mock_prober-closes s t h v in shut ∙ sym flag;
  close-pull_channel =
      λ s t h v. let (shut, flag, kept) = close_mock_prober-closes s t h v in (shut, kept);
  close_again = λ s t h. close_mock_prober_again s t h;
}
