-- ===== src/Commands/Turns.antt =====
-- The agent's and the client's share of the way round the platform: the sending goroutine of
-- internal/components/agent/manager.go over the mock prober, and the fan-out to an HTTP client of
-- internal/components/orchestrator/manager.go.
use iprl_poc.Common.{
  ℕ, zero, suc, ◌<◌, ◌≤◌, List, [], ◌∷◌, ◌++◌, Option, none, some, false, ◌≡◌, refl, sym, ap, ◌∙◌,
  arith, length, map, All, Text,
}
use iprl_poc.Common.Int.{ℤ}
use iprl_poc.Common.GoMap.{get}
use iprl_poc.Common.Channel.{Channel, recv_front}
use iprl_poc.Proto.{ProbingAgentSpec, ProbingAgentStatus, ProbingDirective, ForwardingInfoElement}
use iprl_poc.Api.{ForwardingInfoElementJson, element_json}
use iprl_poc.Components.{Prober}
use iprl_poc.Agent.Manager.{element_interval}
use iprl_poc.Agent.Manager.Elements.{
  send_works, sender_goes_on, sender_fails, sender_returns, sender_waits, sender_panics,
  take_element, sender_turn, hand_over,
}
use iprl_poc.Agent.MockProber.{Draws}
use iprl_poc.Agent.MockProber.Run.{MockProber, mock_prober}
use iprl_poc.Agent.MockProber.Rounds.{
  run_rounds, rounds_for, ElementsFor, ElementsFor-length, run_rounds-ElementsFor,
}
use iprl_poc.Orchestrator.Manager.{OrchestratorManager}
use iprl_poc.Orchestrator.Manager.Queues.{message, receive_elements}
use iprl_poc.Orchestrator.Manager.Fanout.{AllOpen}
use iprl_poc.Orchestrator.Manager.Http.{serve_client, client_goes_on}
use iprl_poc.Orchestrator.Manager.Http.Reach.{fan_times, all_work, elements-serve_client}
use iprl_poc.Commands.Route.{receive_all, with_directives, receive_all-room}

-- So many rounds of the sending goroutine, whose Sends work: the elements handed over.
unfoldable pub send_all :
    (p : Prober) → Option ProbingAgentStatus → ℕ → p.State → List ForwardingInfoElement
send_all p status zero s = []
send_all p status (suc k) s = elim (sender_turn p send_works status s) [
  | sender_goes_on pause e t ↦ e ∷ send_all p status k t
  | sender_fails pause e t ↦ e ∷ []
  | sender_returns ↦ []
  | sender_waits ↦ []
  | sender_panics ↦ []
]

sender_turn-front :
    (draws : Draws) (status : Option ProbingAgentStatus) (pause : ℤ) (e : ForwardingInfoElement)
    (es : List ForwardingInfoElement) (s : MockProber)
    → element_interval status ≡ some pause
    → s.out_ch.buffer ≡ e ∷ es
    → sender_turn (mock_prober draws) send_works status s
      ≡ sender_goes_on pause e (record s { out_ch = record s.out_ch { buffer = es } })
unfolding sender_turn take_element hand_over
sender_turn-front draws status pause e es s paced b =
    rw (recv_front s.out_ch e es b, take_element) (rw (paced, hand_over) refl)

send_all-mock_prober :
    (draws : Draws) (status : Option ProbingAgentStatus) (pause : ℤ)
    (es : List ForwardingInfoElement) (s : MockProber)
    → element_interval status ≡ some pause
    → s.out_ch.buffer ≡ es
    → send_all (mock_prober draws) status (length es) s ≡ es
unfolding send_all
send_all-mock_prober draws status pause [] s paced b = refl
send_all-mock_prober draws status pause (e ∷ es) s paced b =
    let rest =
      send_all-mock_prober draws status pause es
        (record s { out_ch = record s.out_ch { buffer = es } }) paced refl in
    rw (sender_turn-front draws status pause e es s paced b, send_all) (ap (λ xs. e ∷ xs) rest)

-- An agent takes directives from its stream, probes them in rounds of Run at the time `now`, and
-- hands the elements over: none if a step waits, ends early or panics.
unfoldable pub agent_turns :
    Draws
    → ℕ
    → ProbingAgentSpec
    → Option ProbingAgentStatus
    → List ProbingDirective
    → MockProber
    → Option (List ForwardingInfoElement)
agent_turns draws now spec status ds a = elim (receive_all (mock_prober draws) ds a) [
  | none ↦ none
  | some b ↦ elim (run_rounds draws now spec (rounds_for ds) b) [
    | none ↦ none
    | some c ↦ some (send_all (mock_prober draws) status (length ds) c)
  ]
]

-- The orchestrator receives elements from an agent's stream and fans each out, and then serves a
-- client as many rounds.
unfoldable pub serve_elements :
    (List ℕ → Text)
    → Text
    → List ForwardingInfoElement
    → OrchestratorManager
    → Option (List ForwardingInfoElementJson)
serve_elements print_ip client es m =
    elim (fan_times (length es) (receive_elements (map (λ e. message e) es) m).0) [
      | none ↦ none
      | some n ↦ elim (get client n.clients) [
        | none ↦ none
        | some ch ↦ some (serve_client print_ip (all_work es) ch).0
      ]
    ]

module _ (draws : Draws) (now : ℕ) (spec : ProbingAgentSpec)
    (status : Option ProbingAgentStatus) where
  pub agent_turns-All :
      (ds : List ProbingDirective) (a : MockProber) (pause : ℤ)
      → element_interval status ≡ some pause
      → a.held ≡ none
      → a.in_ch.is_closed ≡ false
      → a.in_ch.buffer ≡ []
      → length ds ≤ a.in_ch.capacity
      → a.out_ch.is_closed ≡ false
      → a.out_ch.buffer ≡ []
      → length ds ≤ a.out_ch.capacity
      → All (λ d. 0 < d.near_ttl) ds
      → (es : List ForwardingInfoElement) × (agent_turns draws now spec status ds a ≡ some es)
        × ElementsFor spec now ds es
  unfolding agent_turns
  agent_turns-All ds a pause paced idle o b fits o' b' fits' hops =
      let taken = receive_all-room draws ds a o (rw b (omega arith)) in
      let (es, t, ran, out, all) =
        run_rounds-ElementsFor draws now spec ds (with_directives ds a) (ap (λ x. x ++ ds) b) idle
          o' (rw b' (omega arith)) hops in
      let on_output : t.out_ch.buffer ≡ es =
        ap (λ (c : Channel ForwardingInfoElement). c.buffer) out ∙ ap (λ x. x ++ es) b' in
      let sent = send_all-mock_prober draws status pause es t paced on_output in
      (
        es,
        rw (taken, agent_turns)
            (rw (ran, agent_turns)
              (ap (λ k. some (send_all (mock_prober draws) status k t))
                  (sym (ElementsFor-length spec now ds es all))
                ∙ ap (λ x. some x) sent)),
        all,
      )

module _ (print_ip : List ℕ → Text) (client : Text) where
  pub serve_elements-all :
      (es : List ForwardingInfoElement) (m : OrchestratorManager)
      (q ch : Channel ForwardingInfoElement)
      → m.element_ch ≡ some q
      → q.buffer ≡ []
      → q.is_closed ≡ false
      → length es ≤ q.capacity
      → AllOpen m.clients
      → get client m.clients ≡ some ch
      → ch.buffer ≡ []
      → length es ≤ ch.capacity
      → serve_elements print_ip client es m ≡ some (map (element_json print_ip) es)
  unfolding serve_elements
  serve_elements-all es m q ch queued b o fits opened listens b' fits' =
      let (n, ch', fanned, got, served) =
        elements-serve_client print_ip es m q ch client queued b o fits opened listens
          (rw b' (omega arith)) in
      let views : serve_client print_ip (all_work es) ch'
          ≡ (map (element_json print_ip) es, client_goes_on) =
        rw b' at served in
      rw (fanned, serve_elements) (rw (got, serve_elements) (rw views refl))
