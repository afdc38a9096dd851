-- ===== src/Commands/Circle.antt =====
-- One way round the platform: directives from the mock generator over the orchestrator to an agent's
-- mock prober, and its elements back over the orchestrator to an HTTP client.
use iprl_poc.Common.{
  ℕ, ◌<◌, ◌≤◌, List, [], ◌∷◌, Option, none, some, true, false, ◌≡◌, ap, ◌∙◌, length, map, All, Text,
}
use iprl_poc.Common.Int.{ℤ}
use iprl_poc.Common.GoMap.{get}
use iprl_poc.Common.Channel.{Channel}
use iprl_poc.Common.Draws.{Rng}
use iprl_poc.Proto.{ProbingAgentSpec, ProbingAgentStatus, ProbingDirective, ForwardingInfoElement}
use iprl_poc.Api.{ForwardingInfoElementJson, element_json}
use iprl_poc.Agent.Manager.{element_interval}
use iprl_poc.Agent.MockProber.{Draws}
use iprl_poc.Agent.MockProber.Run.{MockProber}
use iprl_poc.Agent.MockProber.Rounds.{ElementsFor, ElementsFor-length}
use iprl_poc.Generator.Mock.Run.{MockDirectiveGenerator, mock_directive_generator}
use iprl_poc.Generator.Manager.Rounds.{StreamRound, stream_directives}
use iprl_poc.Generator.Manager.Rounds.Order.{directives_of}
use iprl_poc.Generator.Manager.Rounds.Drain.{IsStreaming}
use iprl_poc.Orchestrator.Manager.{OrchestratorManager}
use iprl_poc.Orchestrator.Manager.Queues.{message}
use iprl_poc.Orchestrator.Manager.Dispatch.{
  Delivery, generator_pushes, agent_takes, dispatch, delivered,
}
use iprl_poc.Orchestrator.Manager.Dispatch.Delivery.{delivers}
use iprl_poc.Orchestrator.Manager.Fanout.{AllOpen}
use iprl_poc.Commands.Turns.{agent_turns, serve_elements, agent_turns-All, serve_elements-all}
use iprl_poc.Commands.Route.{route_dispatch, delivered-deliveries}

module _ (rng : Rng) (draws : Draws) (print_ip : List ℕ → Text) (now : ℕ) (agent client : Text)
    (spec : ProbingAgentSpec) (status : Option ProbingAgentStatus) where
  -- The whole way: what the client is sent.
  unfoldable pub circle :
      List StreamRound
      → MockDirectiveGenerator
      → MockProber
      → OrchestratorManager
      → Option (List ForwardingInfoElementJson)
  circle rs g a m =
      let sent = directives_of (stream_directives (mock_directive_generator rng) rs g).0 in
      let (handed, n) =
        dispatch
          (generator_pushes (map (λ d. message d) sent) ∷ agent_takes agent (delivers sent) ∷ [])
          m in
      elim (agent_turns draws now spec status (delivered handed) a) [
        | none ↦ none
        | some es ↦ serve_elements print_ip client es n
      ]

  -- A closed generator whose directives have a TTL above 0, and enough rounds of its stream; an agent
  -- that has a rate; and queues that are open and empty, with room for as many values.
  pub record IsReady (rs : List StreamRound) (g : MockDirectiveGenerator) (a : MockProber)
      (m : OrchestratorManager) : Type 0 where
    pub shut : g.out_ch.is_closed ≡ true
    pub enough : length g.out_ch.buffer < length rs
    pub streaming : All IsStreaming rs
    pub hops : All (λ d. 0 < d.near_ttl) g.out_ch.buffer
    pub pause : ℤ
    pub paced : element_interval status ≡ some pause
    pub idle : a.held ≡ none
    pub queue : Channel ProbingDirective
    pub queued : m.directive_ch ≡ some queue
    pub queue_open : queue.is_closed ≡ false
    pub queue_empty : queue.buffer ≡ []
    pub queue_fits : length g.out_ch.buffer ≤ queue.capacity
    pub input_open : a.in_ch.is_closed ≡ false
    pub input_empty : a.in_ch.buffer ≡ []
    pub input_fits : length g.out_ch.buffer ≤ a.in_ch.capacity
    pub output_open : a.out_ch.is_closed ≡ false
    pub output_empty : a.out_ch.buffer ≡ []
    pub output_fits : length g.out_ch.buffer ≤ a.out_ch.capacity
    pub elements : Channel ForwardingInfoElement
    pub elements_queued : m.element_ch ≡ some elements
    pub elements_open : elements.is_closed ≡ false
    pub elements_empty : elements.buffer ≡ []
    pub elements_fit : length g.out_ch.buffer ≤ elements.capacity
    pub clients_open : AllOpen m.clients
    pub channel : Channel ForwardingInfoElement
    pub listens : get client m.clients ≡ some channel
    pub channel_empty : channel.buffer ≡ []
    pub channel_fits : length g.out_ch.buffer ≤ channel.capacity

  -- From a ready platform, the client is sent the view of one plausible element for each directive on
  -- the generator's channel, in the order of the directives.
  pub circle-in_order :
      (rs : List StreamRound) (g : MockDirectiveGenerator) (a : MockProber)
      (m : OrchestratorManager)
      → IsReady rs g a m
      → (es : List ForwardingInfoElement) × (circle rs g a m
          ≡ some (map (element_json print_ip) es))
        × ElementsFor spec now g.out_ch.buffer es
  unfolding circle
  circle-in_order rs g a m r =
      let ds = g.out_ch.buffer in
      let route =
        route_dispatch rng rs g m r.queue agent r.shut r.enough r.streaming r.queued r.queue_open
          r.queue_empty r.queue_fits in
      let (es, probed, all) =
        agent_turns-All draws now spec status ds a r.pause r.paced r.idle r.input_open r.input_empty
          r.input_fits r.output_open r.output_empty r.output_fits r.hops in
      let as_many = ElementsFor-length spec now ds es all in
      let n : OrchestratorManager = record m {
        directive_ch = some (record r.queue { buffer = [] });
      } in
      let served =
        serve_elements-all print_ip client es n r.elements r.channel r.elements_queued
          r.elements_empty r.elements_open (rw as_many r.elements_fit) r.clients_open r.listens
          r.channel_empty (rw as_many r.channel_fits) in
      (
        es,
        ap
              (λ (out : List Delivery × OrchestratorManager).
                elim (agent_turns draws now spec status (delivered out.0) a) [
                  | none ↦ none
                  | some es ↦ serve_elements print_ip client es out.1
                ])
              route
            ∙ rw (delivered-deliveries agent ds) (rw probed served),
        all,
      )
