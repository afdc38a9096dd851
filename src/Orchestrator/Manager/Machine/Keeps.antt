-- ===== src/Orchestrator/Manager/Machine/Keeps.antt =====
-- What a handler of internal/components/orchestrator/manager.go leaves alone.
use iprl_poc.Common.{some, ◌≡◌, refl, arith, inl, inr, Text, Option-cases}
use iprl_poc.Common.Channel.{Channel, close}
use iprl_poc.Common.GoMap.{delete}
use iprl_poc.Proto.{ForwardingInfoElement}
use iprl_poc.Orchestrator.Manager.{
  OrchestratorManager, set_spec, set_status, join_agent, join_generator, leave, notification_tick,
}
use iprl_poc.Orchestrator.Manager.Reachable.{
  Step, agent_joins, generator_joins, component_leaves, tick, spec_set, status_set,
}
use iprl_poc.Orchestrator.Manager.Queues.{receive_elements}
use iprl_poc.Orchestrator.Manager.Fanout.{
  fanned_out, fan_out, run_fanout, open_stream, close_stream,
}
use iprl_poc.Orchestrator.Manager.Clients.{Turn, opens, reads, closes, receives, fans, recv?-Recvs}
use iprl_poc.Orchestrator.Manager.Machine.Queue.{
  QueueIsSound, receive_loop-QueueIsSound, recv?-QueueIsSound,
}

-- The calls on the registry leave the rest of the manager alone.
pub Step-queues :
    {m n : OrchestratorManager}
    → Step m n
    → (n.clients ≡ m.clients)
      × (n.directive_ch ≡ m.directive_ch)
      × (n.element_ch ≡ m.element_ch)
      × (n.once_done ≡ m.once_done)
unfolding join_agent join_generator leave notification_tick set_spec set_status
Step-queues (agent_joins id spec) = (refl, refl, refl, refl)
Step-queues (generator_joins q r id spec) = (refl, refl, refl, refl)
Step-queues (component_leaves uuid) = ground arith
Step-queues (tick r q) = (refl, refl, refl, refl)
Step-queues (spec_set spec) = (refl, refl, refl, refl)
Step-queues (status_set status) = (refl, refl, refl, refl)

-- What stays when a turn touches the clients and the element queue only.
abbrev pub TurnKeeps : OrchestratorManager → OrchestratorManager → Type 0
TurnKeeps m n =
    (n.store ≡ m.store)
    × (n.directive_ch ≡ m.directive_ch)
    × (n.once_done ≡ m.once_done)
    × QueueIsSound n.once_done n.element_ch

run_fanout-keeps :
    (m n : OrchestratorManager)
    → run_fanout m ≡ fanned_out n
    → QueueIsSound m.once_done m.element_ch
    → TurnKeeps m n
unfolding run_fanout
run_fanout-keeps m n r h = elim (recv?-Recvs m.element_ch) [
  | inl e ↦ absurd (ground arith)
  | inr (inl e) ↦ absurd (ground arith)
  | inr (inr (v, ch, e)) ↦ elim (Option-cases (fan_out v m.clients)) [
    | inl f ↦ absurd (ground arith)
    | inr (cs, f) ↦
        let after : OrchestratorManager = record m { element_ch = some ch; clients = cs } in
        let same : after ≡ n = ground arith in
        rw (← same) (refl, refl, refl, recv?-QueueIsSound m.once_done m.element_ch v ch h e)
  ]
]

close_stream-keeps :
    (id : Text) (ch shut : Channel ForwardingInfoElement) (m n : OrchestratorManager)
    → close_stream id ch m ≡ some (n, shut)
    → QueueIsSound m.once_done m.element_ch
    → TurnKeeps m n
unfolding close_stream
close_stream-keeps id ch shut m n c h = elim (Option-cases (close ch)) [
  | inl e ↦ absurd (ground arith)
  | inr (done, e) ↦
      let same : record m { clients = delete id m.clients } ≡ n = ground arith in
      rw (← same) (refl, refl, refl, h)
]

pub Turn-keeps :
    {m n : OrchestratorManager} → Turn m n → QueueIsSound m.once_done m.element_ch → TurnKeeps m n
unfolding open_stream receive_elements
Turn-keeps (opens id) h = (refl, refl, refl, h)
Turn-keeps (reads id e ch ch' found r) h = (refl, refl, refl, h)
Turn-keeps {m} (closes id ch shut n found c) h = close_stream-keeps id ch shut m n c h
Turn-keeps {m} (receives arrivals) h =
    (refl, refl, refl, (receive_loop-QueueIsSound m.once_done arrivals m.element_ch h).0)
Turn-keeps {m} (fans n r) h = run_fanout-keeps m n r h
