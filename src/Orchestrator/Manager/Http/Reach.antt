-- ===== src/Orchestrator/Manager/Http/Reach.antt =====
-- The way of an element through internal/components/orchestrator/manager.go: from an agent's stream
-- over the queue and the fan-out to an HTTP client.
use iprl_poc.Common.{
  ℕ, zero, suc, ◌+◌, ◌≤◌, List, [], ◌∷◌, ◌++◌, Option, none, some, false, ◌≡◌, refl, sym, ap, ◌∙◌,
  append_assoc, append-nil, arith, map, Text, length, length-append,
}
use iprl_poc.Common.GoMap.{get}
use iprl_poc.Common.Channel.{Channel, recv?, recv_front}
use iprl_poc.Proto.{ForwardingInfoElement}
use iprl_poc.Api.{element_json, from_proto}
use iprl_poc.Orchestrator.Manager.{OrchestratorManager}
use iprl_poc.Orchestrator.Manager.Queues.{message, receive_elements}
use iprl_poc.Orchestrator.Manager.Queues.Order.{receive_loop-room}
use iprl_poc.Orchestrator.Manager.Fanout.{
  AllOpen, fanned_out, element_channel_closed, fanout_waits, fanout_panics, run_fanout, fan_out-get,
}
use iprl_poc.Orchestrator.Manager.Http.{
  ClientRound, encode_works, client_goes_on, write_view, serve_client,
}

-- Rounds of the fan-out that each find an element; none if one waits, ends or panics.
unfoldable pub fan_times : ℕ → OrchestratorManager → Option OrchestratorManager
fan_times zero m = some m
fan_times (suc k) m = elim (run_fanout m) [
  | fanned_out n ↦ fan_times k n
  | element_channel_closed ↦ none
  | fanout_waits ↦ none
  | fanout_panics ↦ none
]

-- One round gives the oldest element to a client that has room.
run_fanout-gives :
    (m : OrchestratorManager) (q ch : Channel ForwardingInfoElement) (id : Text)
    (e : ForwardingInfoElement) (es : List ForwardingInfoElement)
    → m.element_ch ≡ some q
    → q.buffer ≡ e ∷ es
    → AllOpen m.clients
    → get id m.clients ≡ some ch
    → suc (length ch.buffer) ≤ ch.capacity
    → (n : OrchestratorManager) × (run_fanout m ≡ fanned_out n)
      × (n.element_ch ≡ some (record q { buffer = es }))
      × AllOpen n.clients
      × (get id n.clients ≡ some (record ch { buffer = ch.buffer ++ e ∷ [] }))
unfolding run_fanout recv?
run_fanout-gives m q ch id e es queued front opened client room =
    let (cs, fanned, still, looked) = fan_out-get e m.clients opened in
    (
      record m { element_ch = some (record q { buffer = es }); clients = cs },
      rw queued (rw (recv_front q e es front, run_fanout, recv?) (rw fanned)),
      refl,
      still,
      looked id ∙ rw client (ground arith),
    )

fan_times-gives :
    (es : List ForwardingInfoElement) (m : OrchestratorManager)
    (q ch : Channel ForwardingInfoElement) (id : Text)
    → m.element_ch ≡ some q
    → q.buffer ≡ es
    → AllOpen m.clients
    → get id m.clients ≡ some ch
    → length ch.buffer + length es ≤ ch.capacity
    → (n : OrchestratorManager) × (fan_times (length es) m ≡ some n)
      × (get id n.clients ≡ some (record ch { buffer = ch.buffer ++ es }))
unfolding fan_times
fan_times-gives [] m q ch id queued front opened client room =
    (m, refl, client ∙ ap (λ b. some (record ch { buffer = b })) (sym (append-nil ch.buffer)))
fan_times-gives (e ∷ es) m q ch id queued front opened client room =
    let (n, fanned, queued', still, client') =
      run_fanout-gives m q ch id e es queued front opened client (omega arith) in
    let more : Channel ForwardingInfoElement = record ch { buffer = ch.buffer ++ e ∷ [] } in
    let (n', all, got) =
      fan_times-gives es n (record q { buffer = es }) more id queued' refl still client'
        (omega (arith, room, length-append ch.buffer (e ∷ []))) in
    (
      n',
      rw (fanned, fan_times) all,
      got ∙ ap (λ b. some (record ch { buffer = b })) (append_assoc ch.buffer (e ∷ []) es),
    )

-- Rounds of a client in which every Encode works.
abbrev pub all_work : List ForwardingInfoElement → List ClientRound
all_work = map (λ e. encode_works)

serve_client-all :
    (print_ip : List ℕ → Text) (es : List ForwardingInfoElement)
    (ch : Channel ForwardingInfoElement)
    → ch.buffer ≡ es
    → serve_client print_ip (all_work es) ch ≡ (map (element_json print_ip) es, client_goes_on)
unfolding serve_client write_view from_proto
serve_client-all print_ip [] ch b = refl
serve_client-all print_ip (e ∷ es) ch b =
    rw (recv_front ch e es b, serve_client)
      (rw (serve_client-all print_ip es (record ch { buffer = es }) refl) refl)

-- What an agent pushes reaches an HTTP client: if the element queue is empty and open and has room,
-- and all clients' channels are open and this client's has room, then after the elements are
-- received and fanned out, the client is sent the views of what was on its channel and then of all
-- the elements, in order.
pub elements-serve_client :
    (print_ip : List ℕ → Text) (es : List ForwardingInfoElement) (m : OrchestratorManager)
    (q ch : Channel ForwardingInfoElement) (id : Text)
    → m.element_ch ≡ some q
    → q.buffer ≡ []
    → q.is_closed ≡ false
    → length es ≤ q.capacity
    → AllOpen m.clients
    → get id m.clients ≡ some ch
    → length ch.buffer + length es ≤ ch.capacity
    → (n : OrchestratorManager) × (ch' : Channel ForwardingInfoElement) × (fan_times
          (length es)
          (receive_elements (map (λ e. message e) es) m).0
        ≡ some n)
      × (get id n.clients ≡ some ch')
      × (serve_client print_ip (all_work (ch.buffer ++ es)) ch'
          ≡ (map (element_json print_ip) (ch.buffer ++ es), client_goes_on))
unfolding receive_elements
elements-serve_client print_ip es m q ch id queued empty o fits opened client room =
    let filled : Channel ForwardingInfoElement = record q { buffer = q.buffer ++ es } in
    let ch' : Channel ForwardingInfoElement = record ch { buffer = ch.buffer ++ es } in
    let received_all : (receive_elements (map (λ e. message e) es) m).0
        ≡ record m { element_ch = some filled } =
      rw queued (rw (receive_loop-room es q o (rw empty (omega arith))) refl) in
    let (n, all, got) =
      fan_times-gives es (record m { element_ch = some filled }) filled ch id refl
        (ap (λ b. b ++ es) empty) opened client room in
    (n, ch', rw received_all all, got, serve_client-all print_ip (ch.buffer ++ es) ch' refl)
