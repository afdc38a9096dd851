-- ===== src/Agent/Manager/Elements.antt =====
-- `streamElements` of internal/components/agent/manager.go: its two goroutines over any prober. The
-- results of stream.Recv and stream.Send and the case that a select takes are arguments.
pub mod Order
use iprl_poc.Common.{
  List, [], ◌∷◌, ◌++◌, Option, none, some, Bool, true, false, ◌≡◌, refl, sym, ap, ◌∙◌, append_assoc,
  append-nil, inl, inr, ◌⊎◌, arith, Option-cases,
}
use iprl_poc.Common.Int.{ℤ}
use iprl_poc.Common.Channel.{
  Channel, sent, send_blocks, send_panics, received, drained, recv_blocks, send, recv, recv-Recvs,
}
use iprl_poc.Proto.{ProbingAgentStatus, ProbingDirective, ForwardingInfoElement}
use iprl_poc.Components.{Prober, IsProber, Emits}
use iprl_poc.Agent.Manager.{element_interval}

-- A round of the receiving goroutine: a directive, for which the select takes the push or the Done
-- case, or an error of Recv.
pub data Incoming : Type 0 where
  directive_arrives directive_dropped : ProbingDirective → Incoming
  receive_fails : Incoming

pub data ReceiverTurn (S : Type 0) : Type 0 where
  receiver_goes_on : S → ReceiverTurn S
  receiver_returns : S → ReceiverTurn S
  receiver_waits : ReceiverTurn S
  receiver_panics : ReceiverTurn S

-- A round of the sending goroutine: the Done case, or the pull, with a Send that works or fails.
pub data Outgoing : Type 0 where
  send_works send_fails done_instead : Outgoing

-- An element that is handed to Send, after a pause, also if that fails.
pub data SenderTurn (S : Type 0) : Type 0 where
  sender_goes_on : ℤ → ForwardingInfoElement → S → SenderTurn S
  sender_fails : ℤ → ForwardingInfoElement → S → SenderTurn S
  sender_returns : SenderTurn S
  sender_waits : SenderTurn S
  sender_panics : SenderTurn S

module _ (p : Prober) where
  -- `defer m.prober.Close()`
  unfoldable pub receiver_leaves : p.State → ReceiverTurn p.State
  receiver_leaves s = elim (p.close s) [ some t ↦ receiver_returns t | none ↦ receiver_panics ]

  unfoldable pub receiver_turn : Incoming → p.State → ReceiverTurn p.State
  unfolding receiver_leaves
  receiver_turn (directive_arrives d) s = elim (send (p.push_channel s) d) [
    | sent ch ↦ receiver_goes_on (p.pushed s ch)
    | send_blocks ↦ receiver_waits
    | send_panics ↦ receiver_panics
  ]
  receiver_turn (directive_dropped d) s = receiver_leaves s
  receiver_turn receive_fails s = receiver_leaves s

  -- The pause is read from the status before the send; its failure is a panic.
  unfoldable pub hand_over :
      Outgoing → Option ProbingAgentStatus → ForwardingInfoElement → p.State → SenderTurn p.State
  hand_over o status e s = elim (element_interval status) [
    | none ↦ sender_panics
    | some pause ↦ elim o [
      | send_works ↦ sender_goes_on pause e s
      | send_fails ↦ sender_fails pause e s
      | done_instead ↦ sender_returns
    ]
  ]

  unfoldable pub take_element : Outgoing → Option ProbingAgentStatus → p.State → SenderTurn p.State
  unfolding hand_over
  take_element o status s = elim (recv (p.pull_channel s)) [
    | received e ch ↦ hand_over o status e (p.pulled s ch)
    | drained ↦ sender_returns
    | recv_blocks ↦ sender_waits
  ]

  unfoldable pub sender_turn : Outgoing → Option ProbingAgentStatus → p.State → SenderTurn p.State
  unfolding take_element
  sender_turn done_instead status s = sender_returns
  sender_turn send_works status s = take_element send_works status s
  sender_turn send_fails status s = take_element send_fails status s

module _ (p : Prober) (h : IsProber p) where
  -- The prober goes from `s` to a state while any number of calls of `streamElements` use it and Run
  -- works: the elements handed to Send, those put on the output by Run, and the state.
  pub data Session (s : p.State)
      : List ForwardingInfoElement → List ForwardingInfoElement → p.State → Type 0 where
    start : Session s [] [] s
    receives :
        {xs es : List ForwardingInfoElement} {t u : p.State}
        → Session s xs es t
        → (i : Incoming) → receiver_turn p i t ≡ receiver_goes_on u
        → Session s xs es u
    receiver_ends :
        {xs es : List ForwardingInfoElement} {t u : p.State}
        → Session s xs es t
        → (i : Incoming) → receiver_turn p i t ≡ receiver_returns u
        → Session s xs es u
    sends :
        {xs es : List ForwardingInfoElement} {t u : p.State}
        → Session s xs es t
        → (o : Outgoing) (status : Option ProbingAgentStatus) (pause : ℤ)
          (e : ForwardingInfoElement)
        → sender_turn p o status t ≡ sender_goes_on pause e u
        → Session s (xs ++ e ∷ []) es u
    loses :
        {xs es : List ForwardingInfoElement} {t u : p.State}
        → Session s xs es t
        → (o : Outgoing) (status : Option ProbingAgentStatus) (pause : ℤ)
          (e : ForwardingInfoElement)
        → sender_turn p o status t ≡ sender_fails pause e u
        → Session s (xs ++ e ∷ []) es u
    runs :
        {xs es : List ForwardingInfoElement} {t u : p.State}
        → Session s xs es t
        → (r : p.Runs t u) → Session s xs (es ++ (h.runs-Emits t u r).values) u
