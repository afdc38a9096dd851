-- ===== src/Orchestrator/Manager/Fanout.antt =====
-- `runFanout` and the client table of `Stream`, internal/components/orchestrator/manager.go.
use iprl_poc.Common.{
  [], ◌∷◌, ◌++◌, Option, none, some, false, ◌≡◌, refl, Text, arith, length, ltb, if◌then◌else◌, All,
}
use mathlib.Core.Option
use iprl_poc.Common.GoMap.{Map, get, insert, delete}
use iprl_poc.Common.Channel.{
  Channel, make, sent, send_blocks, send_panics, received, drained, recv_blocks, send, recv?, close,
}
use iprl_poc.Proto.{ForwardingInfoElement}
use iprl_poc.Orchestrator.Manager.{OrchestratorManager}

abbrev pub ClientTable : Type 0
ClientTable = Map (Channel ForwardingInfoElement)

-- The loop over the clients: a non-blocking send to each. None is a panic. Each round touches its own
-- channel only, so the visiting order does not show.
unfoldable pub fan_out : ForwardingInfoElement → ClientTable → Option ClientTable
fan_out elem [] = some []
fan_out elem ((id, ch) ∷ cs) =
    let rest = fan_out elem cs in
    elim (send ch elem) [
      | sent ch' ↦ Option.map (λ t. (id, ch') ∷ t) rest
      | send_blocks ↦ Option.map (λ t. (id, ch) ∷ t) rest
      | send_panics ↦ none
    ]

pub data FanoutTurn : Type 0 where
  fanned_out : OrchestratorManager → FanoutTurn
  element_channel_closed : FanoutTurn
  fanout_waits : FanoutTurn
  fanout_panics : FanoutTurn

-- The `elem, ok := <-m.elementCh` case of the loop.
unfoldable pub run_fanout : OrchestratorManager → FanoutTurn
unfolding fan_out
run_fanout m = elim (recv? m.element_ch) [
  | received elem ch ↦ elim (fan_out elem m.clients) [
    | some cs ↦ fanned_out (record m { element_ch = some ch; clients = cs })
    | none ↦ fanout_panics
  ]
  | drained ↦ element_channel_closed
  | recv_blocks ↦ fanout_waits
]

-- `Stream` registers its client with a channel of 128 elements.
unfoldable pub open_stream : Text → OrchestratorManager → OrchestratorManager
unfolding make
open_stream id m = record m { clients = insert id (make 128) m.clients }

-- Its deferred function deletes the client and closes the channel that `Stream` still holds.
unfoldable pub close_stream :
    Text
    → Channel ForwardingInfoElement
    → OrchestratorManager
    → Option (OrchestratorManager × Channel ForwardingInfoElement)
close_stream id ch m =
    Option.map (λ closed. (record m { clients = delete id m.clients }, closed)) (close ch)

-- Every channel in the table is open.
abbrev pub AllOpen : ClientTable → Type 0
AllOpen = All (λ e. e.1.is_closed ≡ false)

-- What one client's channel becomes: the element at its end if there is room, and else no change.
abbrev pub offered :
    ForwardingInfoElement → Channel ForwardingInfoElement → Channel ForwardingInfoElement
offered elem ch =
    if ltb (length ch.buffer) ch.capacity then record ch { buffer = ch.buffer ++ elem ∷ [] } else ch

-- With open channels the fan-out neither blocks nor panics, keeps them open, and gives each client
-- the element exactly if its channel has room: a slow client loses it, and no other is affected.
pub fan_out-get :
    (elem : ForwardingInfoElement) (cs : ClientTable)
    → AllOpen cs
    → (cs' : ClientTable) × (fan_out elem cs ≡ some cs')
      × AllOpen cs'
      × ((id : Text) → get id cs' ≡ Option.map (offered elem) (get id cs))
unfolding fan_out get send
fan_out-get elem [] h = ([], refl, tt, λ id. refl)
fan_out-get elem ((id, ch) ∷ cs) (here, later) =
    let (cs', eq, still, looked) = fan_out-get elem cs later in
    (
      (id, offered elem ch) ∷ cs',
      ground arith,
      (ground arith, still),
      λ j. ground (arith, looked j),
    )
