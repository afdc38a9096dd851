-- ===== src/Agent/MockProber/Rounds.antt =====
-- Rounds of Run of internal/components/agent/mock_prober.go, and what they make of the directives on
-- its input.
use iprl_poc.Common.{
  ℕ, zero, suc, ◌+◌, ◌<◌, ◌≤◌, List, [], ◌∷◌, ◌++◌, Option, none, some, false, ◌≡◌, refl, sym, ap,
  ◌∙◌, append_assoc, append-nil, arith, length, length-append, All,
}
use iprl_poc.Common.Channel.{recv_front, send_room}
use iprl_poc.Proto.{ProbingAgentSpec, ProbingDirective, ForwardingInfoElement}
use iprl_poc.Agent.MockProber.{Draws}
use iprl_poc.Agent.MockProber.Bounds.{IsPlausible, generate_element-IsPlausible}
use iprl_poc.Agent.MockProber.Run.{
  MockProber, goes_on, run_returns, run_waits, run_panics, take_directive, put_element,
  run_mock_prober,
}

-- Two rounds for each directive.
abbrev pub rounds_for : List ProbingDirective → ℕ
rounds_for [] = 0
rounds_for (d ∷ ds) = suc (suc (rounds_for ds))

-- A plausible element for each directive, in order.
abbrev pub ElementsFor :
    ProbingAgentSpec → ℕ → List ProbingDirective → List ForwardingInfoElement → Type 0
ElementsFor spec now [] [] = Unit
ElementsFor spec now (d ∷ ds) (e ∷ es) = IsPlausible d spec now e × ElementsFor spec now ds es
ElementsFor spec now [] (e ∷ es) = ⊥
ElementsFor spec now (d ∷ ds) [] = ⊥

pub ElementsFor-length :
    (spec : ProbingAgentSpec) (now : ℕ) (ds : List ProbingDirective)
    (es : List ForwardingInfoElement)
    → ElementsFor spec now ds es
    → length es ≡ length ds
ElementsFor-length spec now [] [] h = refl
ElementsFor-length spec now (d ∷ ds) (e ∷ es) (fits, h) =
    ap (λ n. suc n) (ElementsFor-length spec now ds es h)
ElementsFor-length spec now [] (e ∷ es) h = absurd h
ElementsFor-length spec now (d ∷ ds) [] h = absurd h

module _ (draws : Draws) (now : ℕ) (spec : ProbingAgentSpec) where
  -- So many rounds at the time `now`; none if one of them waits, returns or panics.
  unfoldable pub run_rounds : ℕ → MockProber → Option MockProber
  run_rounds zero s = some s
  run_rounds (suc k) s = elim (run_mock_prober draws now (some spec) false s) [
    | goes_on t ↦ run_rounds k t
    | run_returns ↦ none
    | run_waits ↦ none
    | run_panics ↦ none
  ]

  take_directive-front :
      (d : ProbingDirective) (ds : List ProbingDirective) (s : MockProber)
      → s.in_ch.buffer ≡ d ∷ ds
      → 0 < d.near_ttl
      → (e : ForwardingInfoElement) × (i : ℕ) × (take_directive draws now (some spec) s
          ≡ goes_on (record s { in_ch = record s.in_ch { buffer = ds }; held = some e; draws = i }))
        × IsPlausible d spec now e
  unfolding take_directive
  take_directive-front d ds s b h =
      let (e, i, made, fits) = generate_element-IsPlausible draws now spec d s.draws h in
      (e, i, rw (recv_front s.in_ch d ds b, take_directive) (rw made refl), fits)

  put_element-room :
      (e : ForwardingInfoElement) (s : MockProber)
      → s.out_ch.is_closed ≡ false
      → length s.out_ch.buffer < s.out_ch.capacity
      → put_element e s
        ≡ goes_on (record s {
          out_ch = record s.out_ch { buffer = s.out_ch.buffer ++ e ∷ [] };
          held = none;
        })
  unfolding put_element
  put_element-room e s o room = rw (send_room s.out_ch e o (ground arith), put_element) refl

  idle_round :
      (s t : MockProber)
      → s.held ≡ none
      → take_directive draws now (some spec) s ≡ goes_on t
      → run_mock_prober draws now (some spec) false s ≡ goes_on t
  unfolding run_mock_prober
  idle_round s t idle taken = ground arith

  busy_round :
      (e : ForwardingInfoElement) (s t : MockProber)
      → s.held ≡ some e
      → put_element e s ≡ goes_on t
      → run_mock_prober draws now (some spec) false s ≡ goes_on t
  unfolding run_mock_prober
  busy_round e s t full put = ground arith

  one_directive :
      (k : ℕ) (s t u : MockProber)
      → run_mock_prober draws now (some spec) false s ≡ goes_on t
      → run_mock_prober draws now (some spec) false t ≡ goes_on u
      → run_rounds (suc (suc k)) s ≡ run_rounds k u
  unfolding run_rounds
  one_directive k s t u first second = rw (first, run_rounds) (rw (second, run_rounds) refl)

  -- Between two directives, with room for an element of each, Run makes one plausible element for
  -- each directive and puts it on the output, in order.
  pub run_rounds-ElementsFor :
      (ds : List ProbingDirective) (s : MockProber)
      → s.in_ch.buffer ≡ ds
      → s.held ≡ none
      → s.out_ch.is_closed ≡ false
      → length s.out_ch.buffer + length ds ≤ s.out_ch.capacity
      → All (λ d. 0 < d.near_ttl) ds
      → (es : List ForwardingInfoElement) × (t : MockProber) × (run_rounds (rounds_for ds) s
          ≡ some t)
        × (t.out_ch ≡ record s.out_ch { buffer = s.out_ch.buffer ++ es })
        × ElementsFor spec now ds es
  unfolding run_rounds
  run_rounds-ElementsFor [] s b idle o room h =
      ([], s, refl, ap (λ x. record s.out_ch { buffer = x }) (sym (append-nil s.out_ch.buffer)), tt)
  run_rounds-ElementsFor (d ∷ ds) s b idle o room (hop, hops) =
      let (e, i, taken, fits) = take_directive-front d ds s b hop in
      let made : MockProber = record s {
        in_ch = record s.in_ch { buffer = ds };
        held = some e;
        draws = i;
      } in
      let sent : MockProber = record made {
        out_ch = record s.out_ch { buffer = s.out_ch.buffer ++ e ∷ [] };
        held = none;
      } in
      let put = put_element-room e made o (omega arith) in
      let (es, t, rest, out, all) =
        run_rounds-ElementsFor ds sent refl refl o
          (omega (arith, room, length-append s.out_ch.buffer (e ∷ []))) hops in
      (
        e ∷ es,
        t,
        one_directive (rounds_for ds) s made sent (idle_round s made idle taken)
              (busy_round e made sent refl put)
            ∙ rest,
        out ∙ ap (λ x. record s.out_ch { buffer = x }) (append_assoc s.out_ch.buffer (e ∷ []) es),
        (fits, all),
      )
