-- ===== src/Orchestrator/Manager/Dispatch/Delivery.antt =====
-- The directive queue of internal/components/orchestrator/manager.go does not keep a directive from
-- an agent that goes on taking.
use iprl_poc.Common.{
  ◌+◌, ◌≤◌, List, [], ◌∷◌, ◌++◌, some, true, false, ◌≡◌, refl, ap, ◌∙◌, append-nil, map, Text,
  length,
}
use iprl_poc.Common.Channel.{Channel, recv?}
use iprl_poc.Proto.{ProbingDirective}
use iprl_poc.Orchestrator.Manager.{OrchestratorManager}
use iprl_poc.Orchestrator.Manager.Queues.{
  message, push_probing_directives, Departure, deliver, send_directives, loop_waits, Taking,
}
use iprl_poc.Common.Channel.{recv_front}
use iprl_poc.Orchestrator.Manager.Queues.Order.{receive_loop-room}
use iprl_poc.Orchestrator.Manager.Dispatch.{
  generator_pushes, agent_takes, hand_directives, dispatch, Delivery,
}

-- As many rounds that send as there are directives queued.
abbrev pub delivers : List ProbingDirective → List Departure
delivers = map (λ d. deliver)

send_directives-all :
    (vs : List ProbingDirective) (ch : Channel ProbingDirective)
    → ch.buffer ≡ vs
    → send_directives (delivers vs) (some ch)
      ≡ (map (λ v. (v, true)) vs, some (record ch { buffer = [] }), loop_waits)
unfolding send_directives recv?
send_directives-all [] ch e = ap (λ b. ([], some (record ch { buffer = b }), loop_waits)) e
send_directives-all (v ∷ vs) ch e =
    let rest : Channel ProbingDirective = record ch { buffer = vs } in
    rw (recv_front ch v vs e, send_directives, recv?) (rw (send_directives-all vs rest refl) refl)

-- All of them handed to one agent.
abbrev pub deliveries : Text → List ProbingDirective → List Delivery
deliveries agent [] = []
deliveries agent (d ∷ ds) = (agent, (d, true)) ∷ deliveries agent ds

deliveries-map :
    (agent : Text) (ds : List ProbingDirective)
    → map (λ (x : Taking). (agent, x)) (map (λ d. (d, true)) ds) ≡ deliveries agent ds
deliveries-map agent [] = refl
deliveries-map agent (d ∷ ds) = ap (λ t. (agent, (d, true)) ∷ t) (deliveries-map agent ds)

-- A generator pushes directives for which an open queue has room, and then one agent keeps taking:
-- it gets all that was queued and all that was pushed, in order, and the queue is empty.
pub dispatch-delivers :
    (vs : List ProbingDirective) (agent : Text) (m : OrchestratorManager)
    (ch : Channel ProbingDirective)
    → m.directive_ch ≡ some ch
    → ch.is_closed ≡ false
    → length ch.buffer + length vs ≤ ch.capacity
    → dispatch
        (generator_pushes (map (λ v. message v) vs)
          ∷ agent_takes agent (delivers (ch.buffer ++ vs))
          ∷ [])
        m
      ≡ (
        deliveries agent (ch.buffer ++ vs),
        record m { directive_ch = some (record ch { buffer = [] }) },
      )
unfolding dispatch push_probing_directives hand_directives
dispatch-delivers vs agent m ch e o h =
    let filled : Channel ProbingDirective = record ch { buffer = ch.buffer ++ vs } in
    rw (e, receive_loop-room vs ch o h, send_directives-all (ch.buffer ++ vs) filled refl)
      (ap (λ b. (b, record m { directive_ch = some (record ch { buffer = [] }) }))
        (append-nil _ ∙ deliveries-map agent (ch.buffer ++ vs)))
