-- ===== src/Samples/Queues.antt =====
-- Samples of the queues and the fan-out of internal/components/orchestrator/manager.go.
use iprl_poc.Common.{List, [], ◌∷◌, some, ◌≡◌, refl, Text, codes, arith}
use mathlib.Core.Option
use iprl_poc.Common.GoMap.{get}
use iprl_poc.Proto.{ProbingDirective}
use iprl_poc.Orchestrator.Manager.Queues.{Arrival, message, end_of_stream, receive_loop}
use iprl_poc.Orchestrator.Manager.Fanout.{ClientTable, AllOpen, offered, fan_out, fan_out-get}
use iprl_poc.Orchestrator.Manager.Queues.Order.{Accepts, receive_loop-Accepts}
use iprl_poc.Samples.Data.{icmp_directive, udp_directive, some_element, queue_of}

abbrev two_arrivals : List (Arrival ProbingDirective)
two_arrivals = message udp_directive ∷ message icmp_directive ∷ end_of_stream ∷ []

receive_loop-Accepts_example :
    Accepts two_arrivals (queue_of []) (receive_loop two_arrivals (some (queue_of [])))
receive_loop-Accepts_example = receive_loop-Accepts two_arrivals (queue_of []) refl (omega arith)

-- A client with room and a slow one.
abbrev two_clients : ClientTable
two_clients =
    (codes "a", queue_of []) ∷ (codes "b", queue_of (some_element ∷ some_element ∷ [])) ∷ []

fan_out-get_example :
    (cs' : ClientTable) × (fan_out some_element two_clients ≡ some cs')
    × AllOpen cs'
    × ((id : Text) → get id cs' ≡ Option.map (offered some_element) (get id two_clients))
fan_out-get_example = fan_out-get some_element two_clients (refl, (refl, tt))
