-- ===== src/Generator/Mock/Rounds.antt =====
-- Rounds of Run of internal/components/generator/mock_directive_generator.go.
use iprl_poc.Common.{
  ℕ, zero, suc, ◌+◌, ◌<◌, ◌≤◌, List, [], ◌∷◌, ◌++◌, Option, none, some, true, false, ◌≡◌, ◌≢◌, refl,
  sym, ap, ◌∙◌, append_assoc, append-nil, arith, length, length-append, All, Mem,
}
use iprl_poc.Common.Draws.{Rng}
use iprl_poc.Common.Channel.{send_room, close}
use iprl_poc.Proto.{
  ProbingAgentSpec, ProbingDirectiveGeneratorSpec, ProbingDirectiveGeneratorStatus,
  ProbingDirective,
}
use iprl_poc.Generator.Mock.Bounds.{TtlRange, Fits, generate_directive-Fits}
use iprl_poc.Generator.Mock.Run.{
  MockDirectiveGenerator, GeneratorTurn, goes_on, run_returns, run_waits, run_panics,
  make_directive, put_directive, run_mock_directive_generator, close_mock_directive_generator,
}

-- The state after a turn that goes on.
abbrev went_on : GeneratorTurn → Option MockDirectiveGenerator
went_on (goes_on t) = some t
went_on run_returns = none
went_on run_waits = none
went_on run_panics = none

module _ (rng : Rng) (spec : ProbingDirectiveGeneratorSpec)
    (status : ProbingDirectiveGeneratorStatus) where
  -- A directive is made, and sent in the next turn; so many times. None if a turn waits, returns or
  -- panics.
  unfoldable pub make_directives : ℕ → MockDirectiveGenerator → Option MockDirectiveGenerator
  make_directives zero s = some s
  make_directives (suc k) s =
      elim (went_on (run_mock_directive_generator rng spec (some status) false s)) [
        | none ↦ none
        | some t ↦ elim (went_on (run_mock_directive_generator rng spec (some status) false t)) [
          | none ↦ none
          | some u ↦ make_directives k u
        ]
      ]

  make_turn :
      (s : MockDirectiveGenerator)
      → s.held ≡ none
      → 0 < length status.agent_specs
      → TtlRange spec
      → ((a : ProbingAgentSpec) → Mem a status.agent_specs → a.vantage_point ≢ none)
      → (d : ProbingDirective) × (i : ℕ) × (run_mock_directive_generator rng spec
            (some status)
            false
            s
          ≡ goes_on (record s { held = some d; draws = i }))
        × Fits spec status.agent_specs d
  unfolding run_mock_directive_generator make_directive
  make_turn s idle some_agent range placed =
      let (d, i, made, fits) =
        generate_directive-Fits rng spec status s.draws some_agent range placed in
      (d, i, rw (idle, run_mock_directive_generator) (rw (made, make_directive) refl), fits)

  put_turn :
      (d : ProbingDirective) (s : MockDirectiveGenerator)
      → s.held ≡ some d
      → s.out_ch.is_closed ≡ false
      → length s.out_ch.buffer < s.out_ch.capacity
      → run_mock_directive_generator rng spec (some status) false s
        ≡ goes_on (record s {
          out_ch = record s.out_ch { buffer = s.out_ch.buffer ++ d ∷ [] };
          held = none;
        })
  unfolding run_mock_directive_generator put_directive
  put_turn d s full o room =
      rw (full, run_mock_directive_generator)
        (rw (send_room s.out_ch d o (ground arith), put_directive) refl)

  -- With room for them, `k` directives are made and put on the channel, and each fits the spec.
  pub make_directives-Fits :
      (k : ℕ) (s : MockDirectiveGenerator)
      → 0 < length status.agent_specs
      → TtlRange spec
      → ((a : ProbingAgentSpec) → Mem a status.agent_specs → a.vantage_point ≢ none)
      → s.held ≡ none
      → s.out_ch.is_closed ≡ false
      → length s.out_ch.buffer + k ≤ s.out_ch.capacity
      → (ds : List ProbingDirective) × (t : MockDirectiveGenerator) × (make_directives k s ≡ some t)
        × (length ds ≡ k)
        × (t.out_ch ≡ record s.out_ch { buffer = s.out_ch.buffer ++ ds })
        × (t.closed ≡ s.closed)
        × All (Fits spec status.agent_specs) ds
  unfolding make_directives
  make_directives-Fits zero s some_agent range placed idle o room = (
    [],
    s,
    refl,
    refl,
    ap (λ b. record s.out_ch { buffer = b }) (sym (append-nil s.out_ch.buffer)),
    refl,
    tt,
  )
  make_directives-Fits (suc k) s some_agent range placed idle o room =
      let (d, i, made, fits) = make_turn s idle some_agent range placed in
      let t : MockDirectiveGenerator = record s { held = some d; draws = i } in
      let put = put_turn d t refl o (omega arith) in
      let u : MockDirectiveGenerator = record t {
        out_ch = record s.out_ch { buffer = s.out_ch.buffer ++ d ∷ [] };
        held = none;
      } in
      let longer = length-append s.out_ch.buffer (d ∷ []) in
      let (ds, v, rest, many, out, flag, all) =
        make_directives-Fits k u some_agent range placed refl o (omega arith) in
      (
        d ∷ ds,
        v,
        rw (made, make_directives) (rw (put, make_directives) rest),
        ap (λ n. suc n) many,
        out ∙ ap (λ b. record s.out_ch { buffer = b }) (append_assoc s.out_ch.buffer (d ∷ []) ds),
        flag,
        (fits, all),
      )

-- Close of a generator that is not closed.
pub close_mock_directive_generator_open :
    (s : MockDirectiveGenerator)
    → s.closed ≡ false
    → s.out_ch.is_closed ≡ false
    → close_mock_directive_generator s
      ≡ some (record s { closed = true; out_ch = record s.out_ch { is_closed = true } })
unfolding close_mock_directive_generator close
close_mock_directive_generator_open s c o = ground arith
