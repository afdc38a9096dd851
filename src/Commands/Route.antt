-- ===== src/Commands/Route.antt =====
-- The way of a directive through the three programs: from the mock generator over the generator's
-- stream, the orchestrator's queue and the agent's stream to the mock prober.
use iprl_poc.Common.{
  ◌+◌, ◌<◌, ◌≤◌, List, [], ◌∷◌, ◌++◌, Option, none, some, true, false, ◌≡◌, refl, sym, ap, ◌∙◌,
  append_assoc, append-nil, arith, Text, length, length-append, map, All,
}
use iprl_poc.Common.Channel.{Channel, send_room}
use iprl_poc.Common.Draws.{Rng}
use iprl_poc.Proto.{ProbingDirective}
use iprl_poc.Components.{Prober}
use iprl_poc.Agent.MockProber.{Draws}
use iprl_poc.Agent.MockProber.Run.{MockProber, mock_prober}
use iprl_poc.Agent.Manager.Elements.{
  directive_arrives, receiver_goes_on, receiver_returns, receiver_waits, receiver_panics,
  receiver_turn,
}
use iprl_poc.Generator.Mock.Run.{
  MockDirectiveGenerator, mock_directive_generator, mock_directive_generator-IsDirectiveGenerator,
}
use iprl_poc.Generator.Manager.Rounds.{StreamRound, stream_directives}
use iprl_poc.Generator.Manager.Rounds.Order.{directives_of}
use iprl_poc.Generator.Manager.Rounds.Drain.{IsStreaming, stream_directives-drains}
use iprl_poc.Orchestrator.Manager.{OrchestratorManager}
use iprl_poc.Orchestrator.Manager.Queues.{message}
use iprl_poc.Orchestrator.Manager.Dispatch.{
  generator_pushes, agent_takes, Delivery, dispatch, delivered,
}
use iprl_poc.Orchestrator.Manager.Dispatch.Delivery.{delivers, deliveries, dispatch-delivers}

-- Rounds of the receiving goroutine, to which these directives arrive; none if it stops or waits.
unfoldable pub receive_all : (p : Prober) → List ProbingDirective → p.State → Option p.State
receive_all p [] s = some s
receive_all p (d ∷ ds) s = elim (receiver_turn p (directive_arrives d) s) [
  | receiver_goes_on t ↦ receive_all p ds t
  | receiver_returns t ↦ none
  | receiver_waits ↦ none
  | receiver_panics ↦ none
]

-- The mock prober with directives put at the end of its input.
abbrev pub with_directives : List ProbingDirective → MockProber → MockProber
with_directives ds a = record a { in_ch = record a.in_ch { buffer = a.in_ch.buffer ++ ds } }

pub receive_all-room :
    (draws : Draws) (ds : List ProbingDirective) (a : MockProber)
    → a.in_ch.is_closed ≡ false
    → length a.in_ch.buffer + length ds ≤ a.in_ch.capacity
    → receive_all (mock_prober draws) ds a ≡ some (with_directives ds a)
unfolding receive_all receiver_turn
receive_all-room draws [] a o room =
    ap (λ b. some (record a { in_ch = record a.in_ch { buffer = b } }))
      (sym (append-nil a.in_ch.buffer))
receive_all-room draws (d ∷ ds) a o room =
    let more : MockProber = with_directives (d ∷ []) a in
    let rest =
      receive_all-room draws ds more o
        (omega (arith, room, length-append a.in_ch.buffer (d ∷ []))) in
    let put = send_room a.in_ch d o (ground arith) in
    rw (put, receive_all, receiver_turn)
      (rest
        ∙ ap (λ b. some (record a { in_ch = record a.in_ch { buffer = b } }))
            (append_assoc a.in_ch.buffer (d ∷ []) ds))

pub delivered-deliveries :
    (agent : Text) (ds : List ProbingDirective) → delivered (deliveries agent ds) ≡ ds
delivered-deliveries agent [] = refl
delivered-deliveries agent (d ∷ ds) = ap (λ t. d ∷ t) (delivered-deliveries agent ds)

-- In enough rounds of a closed mock generator's stream, with a rate and agents, over an empty open
-- queue with room, to an agent that keeps taking: each directive is handed over once and in order.
pub route_dispatch :
    (rng : Rng) (rs : List StreamRound) (g : MockDirectiveGenerator) (m : OrchestratorManager)
    (q : Channel ProbingDirective) (agent : Text)
    → g.out_ch.is_closed ≡ true
    → length g.out_ch.buffer < length rs
    → All IsStreaming rs
    → m.directive_ch ≡ some q
    → q.is_closed ≡ false
    → q.buffer ≡ []
    → length g.out_ch.buffer ≤ q.capacity
    → let sent = directives_of (stream_directives (mock_directive_generator rng) rs g).0 in
      dispatch
        (generator_pushes (map (λ d. message d) sent) ∷ agent_takes agent (delivers sent) ∷ [])
        m
      ≡ (
        deliveries agent g.out_ch.buffer,
        record m { directive_ch = some (record q { buffer = [] }) },
      )
route_dispatch rng rs g m q agent shut enough streaming queued o empty fits =
    let laws = mock_directive_generator-IsDirectiveGenerator rng in
    let sent =
      (stream_directives-drains (mock_directive_generator rng) laws rs g shut enough streaming).1 in
    let handed = dispatch-delivers g.out_ch.buffer agent m q queued o (rw empty (omega arith)) in
    ap
      (λ (xs : List ProbingDirective).
        dispatch (generator_pushes (map (λ d. message d) xs) ∷ agent_takes agent (delivers xs) ∷ [])
          m)
      sent
    ∙ rw empty at handed

-- What a mock generator has on its channel when it is closed reaches the mock prober of an agent: in
-- enough rounds of the generator's stream with a rate and agents, over an empty open queue with room,
-- to an agent that keeps taking and whose open input has room, each directive once and in order. The
-- agent may be any, whatever vantage points the directives name.
pub receive_all-dispatch :
    (rng : Rng) (draws : Draws) (rs : List StreamRound) (g : MockDirectiveGenerator)
    (m : OrchestratorManager) (q : Channel ProbingDirective) (agent : Text) (a : MockProber)
    → g.out_ch.is_closed ≡ true
    → length g.out_ch.buffer < length rs
    → All IsStreaming rs
    → m.directive_ch ≡ some q
    → q.is_closed ≡ false
    → q.buffer ≡ []
    → length g.out_ch.buffer ≤ q.capacity
    → a.in_ch.is_closed ≡ false
    → length a.in_ch.buffer + length g.out_ch.buffer ≤ a.in_ch.capacity
    → let sent = directives_of (stream_directives (mock_directive_generator rng) rs g).0 in
      let (handed, m') =
        dispatch
          (generator_pushes (map (λ d. message d) sent) ∷ agent_takes agent (delivers sent) ∷ [])
          m in
      receive_all (mock_prober draws) (delivered handed) a
      ≡ some (with_directives g.out_ch.buffer a)
receive_all-dispatch rng draws rs g m q agent a shut enough streaming queued o empty fits open_in
      room =
    let P = mock_prober draws in
    ap (λ (out : List Delivery × OrchestratorManager). receive_all P (delivered out.0) a)
      (route_dispatch rng rs g m q agent shut enough streaming queued o empty fits)
    ∙ ap (λ (xs : List ProbingDirective). receive_all P xs a)
        (delivered-deliveries agent g.out_ch.buffer)
    ∙ receive_all-room draws g.out_ch.buffer a open_in room
