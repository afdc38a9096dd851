-- ===== src/Commands/Platform.antt =====
-- The three programs of cmd together, from their flags: an agent and a generator join the
-- orchestrator, an HTTP client connects, the generator makes directives, and what comes of them goes
-- once round the platform. `limit`, `to4`, `agent_source` and `generator_source` are as in
-- Commands/Boot; `q` and `r` are the orders in which the orchestrator visits its agents.
mod Joins
use iprl_poc.Common.{
  ℕ, suc, ◌%◌, ◌^◌, ◌<◌, ◌≤◌, List, [], ◌∷◌, Option, some, true, false, ◌≡◌, refl, ap, arith, inl,
  inr, Text, Result, ok, length, map, All, All-mono, Mem, text_eq,
}
use iprl_poc.Common.Int.{ℤ, pos, wrap64}
use iprl_poc.Common.GoMap.{Range, get, insert}
use iprl_poc.Common.GoMap.Entries.{visit-singleton}
use iprl_poc.Common.Channel.{Channel, make}
use iprl_poc.Common.Draws.{Rng, ◌>>=◌}
use iprl_poc.Proto.{
  ProbingAgentSpec, ProbingDirectiveGeneratorSpec, ProbingDirectiveGeneratorStatus,
  ProbingDirective, ForwardingInfoElement, JoinResponse, ProbingAgentStatus,
  ProbingOrchestratorSpec,
}
use iprl_poc.Api.{ForwardingInfoElementJson, element_json}
use iprl_poc.Agent.Manager.{new_agent_manager, element_interval}
use iprl_poc.Agent.Manager.Pacing.{joined, join_agent-element_interval}
use iprl_poc.Agent.MockProber.{Draws}
use iprl_poc.Agent.MockProber.Run.{new_mock_prober}
use iprl_poc.Agent.MockProber.Rounds.{ElementsFor}
use iprl_poc.Generator.Manager.{GeneratorManager, new_generator_manager}
use iprl_poc.Generator.Manager
use iprl_poc.Generator.Manager.Rounds.Steady.{
  steady_rounds, length-steady_rounds, steady_rounds-IsStreaming,
}
use iprl_poc.Generator.Manager.Rounds.Drain.{IsStreaming}
use iprl_poc.Generator.Mock.Run.{
  MockDirectiveGenerator, new_mock_directive_generator, close_mock_directive_generator,
}
use iprl_poc.Generator.Mock.Rounds.{
  make_directives, make_directives-Fits, close_mock_directive_generator_open,
}
use iprl_poc.Orchestrator.Store.{
  OrchestratorError, new_component_store, add_or_update_agent, announce_new_agent,
}
use iprl_poc.Orchestrator.Manager.{
  OrchestratorManager, new_orchestrator_manager, join_agent, join_generator, filled_status,
  generator_status_for,
}
use iprl_poc.Orchestrator.Manager.Fanout.{open_stream}
use iprl_poc.Commands.{
  AgentFlags, GeneratorFlags, OrchestratorFlags, agent_spec_of, generator_spec_of,
  orchestrator_spec_of,
}
use iprl_poc.Commands.Boot.{agent_boot, generator_boot, agent_boot-some, generator_boot-some}
use Joins.{told, first_status, first_join, first_status-agent_specs, first_status-rate}
use iprl_poc.Commands.Circle.{IsReady, circle, circle-in_order}
use iprl_poc.Commands.Pipeline.{generator_spec_of-TtlRange, agent_spec_of-placed}

module _ (limit : ℕ) (agent_source : ℤ → Draws) (generator_source : ℤ → Rng) (to4 : Text → List ℕ)
    (print_ip : List ℕ → Text) (version : Text) (q r : Range ProbingAgentSpec) (now : ℕ)
    (agent_id generator_id client : Text) (fa : AgentFlags) (fg : GeneratorFlags)
    (fo : OrchestratorFlags) where
  -- What the client is sent when the generator makes `k` directives and is closed; none if a program
  -- panics or the way is blocked.
  unfoldable pub platform : ℕ → Option (List ForwardingInfoElementJson)
  platform k = do
    a ← agent_boot limit agent_source to4 version fa
    g ← generator_boot limit generator_source version fg
    let spec = agent_spec_of to4 version fa
    let m = new_orchestrator_manager (orchestrator_spec_of version fo)
    let (n, response) =
        join_generator q r generator_id (generator_spec_of version fg)
          (join_agent agent_id spec m).0
    status ← (told response g.manager).current_status
    t ← make_directives g.rng (generator_spec_of version fg) status k g.generator
    u ← close_mock_directive_generator t
    circle g.rng a.draws print_ip now agent_id client spec
        (joined agent_id spec a.manager m).current_status (steady_rounds status (suc k)) u a.prober
        (open_stream client n)

  abbrev agent_spec : ProbingAgentSpec
  agent_spec = agent_spec_of to4 version fa

  abbrev orchestrator : OrchestratorManager
  orchestrator = new_orchestrator_manager (orchestrator_spec_of version fo)

  abbrev generator_spec : ProbingDirectiveGeneratorSpec
  generator_spec = generator_spec_of version fg

  -- The status of the agent that has joined.
  abbrev agent_joined : Option ProbingAgentStatus
  agent_joined =
      (joined agent_id agent_spec (new_agent_manager agent_spec) orchestrator).current_status

  abbrev told_status : ProbingDirectiveGeneratorStatus
  told_status = first_status q r agent_id generator_id agent_spec (orchestrator_spec_of version fo)

  -- The buffers hold `k` values, the TTLs are in order and fit in 32 bits, the rate does not vanish.
  pub record Works (k : ℕ) : Type 0 where
    pub limit_fits : limit < 2 ^ 63
    pub agent_buffer : (k ≤ fa.mock_buffer) × (fa.mock_buffer ≤ limit)
    pub generator_buffer : (k ≤ fg.mock_buffer) × (fg.mock_buffer ≤ limit)
    pub directive_buffer : k ≤ fo.directive_buffer % 2 ^ 32
    pub element_buffer : k ≤ fo.element_buffer % 2 ^ 32
    pub client_buffer : k ≤ 128
    pub rate : 0 < fo.rate % 2 ^ 32
    pub ttl_order : (0 < fg.min_ttl) × (fg.min_ttl ≤ fg.max_ttl)
    pub ttl_fits : fg.max_ttl < 2 ^ 32

  -- The directives on the channel of the generator's program once it has made `k` of them.
  abbrev pub Made : ℕ → List ProbingDirective → Type 0
  Made k ds =
      let rng = generator_source (wrap64 (pos fg.seed)) in
      (t : MockDirectiveGenerator) × (make_directives rng generator_spec told_status k
          (new_mock_directive_generator fg.mock_buffer)
        ≡ some t)
      × (t.out_ch.buffer ≡ ds)

  agent_pause : 0 < fo.rate % 2 ^ 32 → (pause : ℤ) × (element_interval agent_joined ≡ some pause)
  unfolding new_orchestrator_manager orchestrator_spec_of
  agent_pause h =
      elim (join_agent-element_interval agent_id agent_spec (new_agent_manager agent_spec)
        orchestrator) [
          | inl (none_left, _) ↦ absurd (omega arith)
          | inr (n, positive, paced, _) ↦ (pos n, paced)
        ]

  abbrev connected : OrchestratorManager
  connected =
      open_stream client
        (join_generator q r generator_id generator_spec
          (join_agent agent_id agent_spec orchestrator).0).0

  told_rounds : (k : ℕ) → Works k → All IsStreaming (steady_rounds told_status (suc k))
  unfolding orchestrator_spec_of
  told_rounds k w =
      let (one, _) =
        first_status-agent_specs q r agent_id generator_id agent_spec
          (orchestrator_spec_of version fo) in
      let rate =
        first_status-rate q r agent_id generator_id agent_spec (orchestrator_spec_of version fo) in
      steady_rounds-IsStreaming told_status (suc k) (rw rate w.rate) (rw rate (omega arith))
        (rw one (omega arith)) (rw one (omega arith))

  ready :
      (rng : Rng) (draws : Draws) (k : ℕ) (u : MockDirectiveGenerator) (pause : ℤ)
      → Works k
      → element_interval agent_joined ≡ some pause
      → u.out_ch.is_closed ≡ true
      → length u.out_ch.buffer ≡ k
      → All (λ d. 0 < d.near_ttl) u.out_ch.buffer
      → IsReady rng draws print_ip now agent_id client agent_spec agent_joined
          (steady_rounds told_status (suc k))
          u
          (new_mock_prober fa.mock_buffer)
          connected
  unfolding open_stream join_generator join_agent new_orchestrator_manager new_mock_prober make
      orchestrator_spec_of insert get text_eq
  ready rng draws k u pause w paced shut many hops = record {
    shut = shut;
    enough = rw (many, length-steady_rounds told_status k) (omega arith);
    streaming = told_rounds k w;
    hops = hops;
    pause = pause;
    paced = paced;
    idle = refl;
    queue = make (fo.directive_buffer % 2 ^ 32);
    queued = refl;
    queue_open = refl;
    queue_empty = refl;
    queue_fits = rw many w.directive_buffer;
    input_open = refl;
    input_empty = refl;
    input_fits = rw many w.agent_buffer.0;
    output_open = refl;
    output_empty = refl;
    output_fits = rw many w.agent_buffer.0;
    elements = make (fo.element_buffer % 2 ^ 32);
    elements_queued = refl;
    elements_open = refl;
    elements_empty = refl;
    elements_fit = rw many w.element_buffer;
    clients_open = (refl, tt);
    channel = make 128;
    listens = ground arith;
    channel_empty = refl;
    channel_fits = rw many w.client_buffer;
  }

  -- The directives that the generator's program makes before its Close.
  made :
      (rng : Rng) (k : ℕ)
      → Works k
      → (t : MockDirectiveGenerator) × (u : MockDirectiveGenerator) × (make_directives rng
            generator_spec told_status k
            (new_mock_directive_generator fg.mock_buffer)
          ≡ some t)
        × (close_mock_directive_generator t ≡ some u)
        × (t.out_ch.buffer ≡ u.out_ch.buffer)
        × (u.out_ch.is_closed ≡ true)
        × (length u.out_ch.buffer ≡ k)
        × All (λ d. (fg.min_ttl ≤ d.near_ttl) × (d.near_ttl ≤ fg.max_ttl)) u.out_ch.buffer
  unfolding new_mock_directive_generator make generator_spec_of
  made rng k w =
      let (one, known) =
        first_status-agent_specs q r agent_id generator_id agent_spec
          (orchestrator_spec_of version fo) in
      let range = generator_spec_of-TtlRange version fg w.ttl_order.0 w.ttl_order.1 w.ttl_fits in
      let (ds, t, m, many, out, flag, all) =
        make_directives-Fits rng generator_spec told_status k
          (new_mock_directive_generator fg.mock_buffer) (rw one (omega arith)) range
          (λ b listed. agent_spec_of-placed to4 version (fa ∷ []) b (known b listed)) refl refl
          (omega (arith, w.generator_buffer.0)) in
      let buffered : t.out_ch.buffer ≡ ds = ap (λ (c : Channel ProbingDirective). c.buffer) out in
      let is_open : t.out_ch.is_closed ≡ false =
        ap (λ (c : Channel ProbingDirective). c.is_closed) out in
      (
        t,
        _,
        m,
        close_mock_directive_generator_open t flag is_open,
        refl,
        refl,
        rw buffered many,
        rw buffered (
            All-mono ds
              (λ d f.
                let (low, high) = f.ttl in
                (omega (arith, w.ttl_order, w.ttl_fits), ground (arith, w.ttl_order, w.ttl_fits)))
              all),
      )

  -- If the rate is no multiple of 2 ^ 32, 0 < -min-ttl ≤ -max-ttl < 2 ^ 32, and all buffers hold `k`
  -- values and no more than make takes, then the generator makes `k` directives with TTLs between the
  -- two flags, and the client is sent the view of one plausible element for each, in their order.
  pub flags-platform :
      (k : ℕ)
      → Works k
      → (ds : List ProbingDirective) × (es : List ForwardingInfoElement) × (platform k
          ≡ some (map (element_json print_ip) es))
        × Made k ds
        × (length ds ≡ k)
        × All (λ d. (fg.min_ttl ≤ d.near_ttl) × (d.near_ttl ≤ fg.max_ttl)) ds
        × ElementsFor agent_spec now ds es
  unfolding platform
  flags-platform k w =
      let rng = generator_source (wrap64 (pos fg.seed)) in
      let draws = agent_source (wrap64 (pos fa.seed)) in
      let (t, u, m, c, same, shut, many, all) = made rng k w in
      let hops =
        All-mono u.out_ch.buffer (λ d f. let (low, high) = f in omega (arith, w.ttl_order)) all in
      let a = agent_boot-some limit agent_source to4 version fa w.agent_buffer.1 w.limit_fits in
      let g =
        generator_boot-some limit generator_source version fg w.generator_buffer.1 w.limit_fits in
      let j =
        first_join q r agent_id generator_id agent_spec (orchestrator_spec_of version fo)
          generator_spec in
      let (pause, paced) = agent_pause w.rate in
      let (es, way, answers) =
        circle-in_order rng draws print_ip now agent_id client agent_spec agent_joined
          (steady_rounds told_status (suc k)) u (new_mock_prober fa.mock_buffer) connected
          (ready rng draws k u pause w paced shut many hops) in
      (
        u.out_ch.buffer,
        es,
        rw (a, platform)
            (rw (g, platform) (rw (j, platform) (rw (m, platform) (rw (c, platform) way)))),
        (t, m, same),
        many,
        all,
        answers,
      )
