-- ===== src/Orchestrator/Manager/Queues.antt =====
-- The two queues of internal/components/orchestrator/manager.go: the receiving loops that fill them
-- (`PushProbingDirectives`, and the first goroutine of `PushForwardingInfoElements`), the loop that
-- hands directives to an agent, and `Close`. A loop is run on the list of what its stream and its
-- select do; `…_waits` is a loop that is blocked at the end of that list.
pub mod Order
use iprl_poc.Common.{
  ℕ, ◌+◌, map, List, [], ◌∷◌, ◌++◌, Option, none, some, Bool, true, false, ◌≡◌, refl, ap, sym, ◌∙◌,
  inl, inr, arith, if◌then◌else◌, append_assoc, append-nil, Bool-cases, ◌≢◌, length, ltb, ltb→lt,
  length-append,
}
use iprl_poc.Common.Channel.{
  Channel, InCapacity, sent, send_blocks, send_panics, received, drained, recv_blocks, send, send?,
  recv?, close, send_room, send_full, recv-Recvs,
}
use iprl_poc.Proto.{ProbingDirective, ForwardingInfoElement}
use iprl_poc.Orchestrator.Manager.{OrchestratorManager}

-- One round of a receiving loop: a message, with whether the select takes a Done case (which is only
-- ready once a context is done) over the send; the stream's end; or its failure.
pub data Arrival {ℓ} (A : Type ℓ) : Type ℓ where
  message : A → Arrival A
  message_dropped : A → Arrival A
  end_of_stream : Arrival A
  stream_failed : Arrival A

pub data LoopEnd : Type 0 where
  loop_done loop_cancelled loop_failed loop_waits loop_panics : LoopEnd

-- The loop of both receivers.
module _ {ℓ} {A : Type ℓ} where
  unfoldable pub receive_loop : List (Arrival A) → Option (Channel A) → Option (Channel A) × LoopEnd
  receive_loop [] ch = (ch, loop_waits)
  receive_loop (end_of_stream ∷ arrivals) ch = (ch, loop_done)
  receive_loop (stream_failed ∷ arrivals) ch = (ch, loop_failed)
  receive_loop (message_dropped v ∷ arrivals) ch = (ch, loop_cancelled)
  receive_loop (message v ∷ arrivals) ch = elim (send? ch v) [
    | sent ch' ↦ receive_loop arrivals (some ch')
    | send_blocks ↦ (ch, loop_waits)
    | send_panics ↦ (ch, loop_panics)
  ]

  -- The messages of a stream up to its end.
  abbrev pub messages : List (Arrival A) → List A
  messages [] = []
  messages (message v ∷ arrivals) = v ∷ messages arrivals
  messages (message_dropped v ∷ arrivals) = v ∷ []
  messages (end_of_stream ∷ arrivals) = []
  messages (stream_failed ∷ arrivals) = []

unfoldable pub push_probing_directives :
    List (Arrival ProbingDirective) → OrchestratorManager → OrchestratorManager × LoopEnd
unfolding receive_loop
push_probing_directives arrivals m =
    let (ch, e) = receive_loop arrivals m.directive_ch in (record m { directive_ch = ch }, e)

unfoldable pub receive_elements :
    List (Arrival ForwardingInfoElement) → OrchestratorManager → OrchestratorManager × LoopEnd
unfolding receive_loop
receive_elements arrivals m =
    let (ch, e) = receive_loop arrivals m.element_ch in (record m { element_ch = ch }, e)

-- One round of the sending loop: a Done case, or a directive taken from the queue for a Send that
-- works or fails.
pub data Departure : Type 0 where
  cancel deliver deliver_fails : Departure

-- A directive taken from the queue, and whether its Send works: it is lost if not.
abbrev pub Taking : Type 0
Taking = ProbingDirective × Bool

-- The result has the directives taken from the queue, the channel, and how the loop stopped.
unfoldable pub send_directives :
    List Departure
    → Option (Channel ProbingDirective)
    → List Taking × Option (Channel ProbingDirective) × LoopEnd
send_directives [] ch = ([], ch, loop_waits)
send_directives (cancel ∷ ds) ch = ([], ch, loop_done)
send_directives (deliver ∷ ds) ch = elim (recv? ch) [
  | received d ch' ↦
      let rest = send_directives ds (some ch') in ((d, true) ∷ rest.0, rest.1, rest.2)
  | drained ↦ ([], ch, loop_done)
  | recv_blocks ↦ ([], ch, loop_waits)
]
send_directives (deliver_fails ∷ ds) ch = elim (recv? ch) [
  | received d ch' ↦ ((d, false) ∷ [], some ch', loop_failed)
  | drained ↦ ([], ch, loop_done)
  | recv_blocks ↦ ([], ch, loop_waits)
]

abbrev pub taken_of : List Taking → List ProbingDirective
taken_of = map (λ x. x.0)

-- How many are handed over, for `true`, or lost; and how many Sends work, for `true`, or fail.
abbrev pub weight : Bool → Bool → ℕ
weight true true = 1
weight true false = 0
weight false true = 0
weight false false = 1

abbrev pub tally : Bool → List Taking → ℕ
tally b [] = 0
tally b (x ∷ xs) = weight b x.1 + tally b xs

abbrev pub outcomes : Bool → List Departure → ℕ
outcomes b [] = 0
outcomes b (cancel ∷ ds) = outcomes b ds
outcomes b (deliver ∷ ds) = weight b true + outcomes b ds
outcomes b (deliver_fails ∷ ds) = weight b false + outcomes b ds

-- `Close`: the first call closes both queues and sets them to nil; none is a panic.
unfoldable pub close_queue {ℓ} : {A : Type ℓ} → Option (Channel A) → Option (Option (Channel A))
close_queue none = some none
close_queue (some ch) = elim (close ch) [ none ↦ none | some _ ↦ some none ]

unfoldable pub close_manager : OrchestratorManager → Option OrchestratorManager
unfolding close_queue
close_manager m = if m.once_done then some m else elim (close_queue m.directive_ch) [
  | none ↦ none
  | some d ↦ elim (close_queue m.element_ch) [
    | none ↦ none
    | some e ↦ some (record m { directive_ch = d; element_ch = e; once_done = true })
  ]
]

-- One call of Close that does not panic is all that any number of calls do.
pub close_manager_idem :
    (m m' : OrchestratorManager)
    → close_manager m ≡ some m'
    → (m'.once_done ≡ true) × (close_manager m' ≡ some m')
unfolding close_manager
close_manager_idem m m' h = ground arith

-- Close shuts both queues of a manager whose queues are open: it does not panic, and then a new send
-- or receive on either waits for ever.
pub close_manager-shuts :
    (m : OrchestratorManager) (d : Channel ProbingDirective) (e : Channel ForwardingInfoElement)
    → m.once_done ≡ false
    → m.directive_ch ≡ some d
    → m.element_ch ≡ some e
    → d.is_closed ≡ false
    → e.is_closed ≡ false
    → (m' : OrchestratorManager) × (close_manager m ≡ some m')
      × ((v : ProbingDirective) → send? m'.directive_ch v ≡ send_blocks)
      × (recv? m'.directive_ch ≡ recv_blocks)
      × ((v : ForwardingInfoElement) → send? m'.element_ch v ≡ send_blocks)
      × (recv? m'.element_ch ≡ recv_blocks)
unfolding close_manager close send? recv?
close_manager-shuts m d e o hd he od oe = (
  record m { directive_ch = none; element_ch = none; once_done = true },
  ground arith,
  λ v. refl,
  refl,
  λ v. refl,
  refl,
)

-- A receiver that waits in its send on a full queue when Close shuts that queue panics: the channel
-- it waits on is closed under it, whatever the stream sends next.
pub close-breaks_waiting_send {ℓ} :
    {A : Type ℓ} (ch ch' : Channel A) (v : A) (arrivals : List (Arrival A))
    → send ch v ≡ send_blocks
    → close ch ≡ some ch'
    → (receive_loop (message v ∷ arrivals) (some ch) ≡ (some ch, loop_waits))
      × (receive_loop (message v ∷ arrivals) (some ch') ≡ (some ch', loop_panics))
unfolding receive_loop send? send close
close-breaks_waiting_send ch ch' v arrivals full shut = (ground arith, ground arith)
