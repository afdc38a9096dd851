-- ===== src/Generator/Manager/Rounds.antt =====
-- The loop `streamDirectives` of internal/components/generator/manager.go over any directive
-- generator. The case that a select takes and the result of stream.Send are arguments.
pub mod Order
pub mod Drain
pub mod Steady
use iprl_poc.Common.{
  ℕ, suc, List, [], ◌∷◌, ◌++◌, Option, none, some, Bool, true, false, not, ◌≡◌, ◌≢◌, refl, sym, ap,
  ◌∙◌, map, inl, inr, ◌⊎◌, arith, if◌then◌else◌, length, All,
}
use iprl_poc.Common.Int.{ℤ}
use iprl_poc.Common.Channel.{Channel, received, drained, recv_blocks, recv}
use iprl_poc.Proto.{ProbingDirectiveGeneratorStatus, ProbingDirective}
use iprl_poc.Components.{DirectiveGenerator, IsDirectiveGenerator}
use iprl_poc.Generator.Manager.{
  can_stream, send_interval, Pull, pulled, source_closed, context_done, StreamTurn, retry_later,
  stream_ends, turn_panics, sends_after, stream_turn,
}

-- What a round meets: the status at its top and after the pull, whether its select takes a Done case,
-- and whether Send works.
pub record StreamRound : Type 0 where
  pub top : Option ProbingDirectiveGeneratorStatus
  pub after : Option ProbingDirectiveGeneratorStatus
  pub is_done : Bool
  pub sends : Bool

-- How the loop stands: it has returned nil, or Send's error with the directive lost in it, it panicked, it waits at the pull, or it
-- would start another round.
pub data StreamEnd : Type 0 where
  returns_nil panics waits still_on : StreamEnd
  returns_error : ProbingDirective → StreamEnd

module _ (g : DirectiveGenerator) where
  -- The select that pulls; none where no case of it is ready.
  unfoldable pub pull_from : Bool → g.State → Option (Pull ProbingDirective × g.State)
  pull_from done s = if done then some (context_done, s) else elim (recv (g.pull_channel s)) [
    | received d ch ↦ some (pulled d, g.pulled s ch)
    | drained ↦ some (source_closed, s)
    | recv_blocks ↦ none
  ]

  -- The wait for the status to allow directives, or the pull.
  unfoldable pub begin_round : StreamRound → g.State → Option (Pull ProbingDirective × g.State)
  begin_round r s = if can_stream r.top then pull_from r.is_done s else some (context_done, s)

  -- `rest` is what the next rounds do.
  unfoldable pub end_round :
      StreamRound
      → StreamTurn ProbingDirective
      → List (ℤ × ProbingDirective) × (StreamEnd × g.State)
      → g.State
      → List (ℤ × ProbingDirective) × (StreamEnd × g.State)
  end_round r retry_later rest t = if r.is_done then ([], (returns_nil, t)) else rest
  end_round r stream_ends rest t = ([], (returns_nil, t))
  end_round r turn_panics rest t = ([], (panics, t))
  end_round r (sends_after pause d) rest t =
      if r.sends then ((pause, d) ∷ rest.0, rest.1) else ([], (returns_error d, t))

  -- The loop over the rounds: the directives sent, each with the pause before it, how it ends, and
  -- the state of the generator.
  unfoldable pub stream_directives :
      List StreamRound → g.State → List (ℤ × ProbingDirective) × (StreamEnd × g.State)
  stream_directives [] s = ([], (still_on, s))
  stream_directives (r ∷ rs) s = elim (begin_round r s) [
    | none ↦ ([], (waits, s))
    | some (p, t) ↦ end_round r (stream_turn r.top r.after p) (stream_directives rs t) t
  ]
