-- ===== src/Orchestrator/Manager/Clients.antt =====
-- The clients of Stream around the fan-out, internal/components/orchestrator/manager.go: streams that
-- open, read and close in any order.
use iprl_poc.Common.{
  List, [], ◌∷◌, Option, none, some, false, ◌≡◌, ◌≢◌, refl, Text, arith, ◌⊎◌, inl, inr,
  Option-cases,
}
use iprl_poc.Common.GoMap.{get, insert, delete}
use iprl_poc.Common.Channel.{
  Channel, make, received, drained, recv_blocks, recv, recv?, close, recv-Recvs,
}
use iprl_poc.Proto.{ForwardingInfoElement, ProbingOrchestratorSpec}
use iprl_poc.Orchestrator.Manager.{OrchestratorManager, new_orchestrator_manager}
use iprl_poc.Orchestrator.Manager.Queues.{Arrival, receive_elements}
use iprl_poc.Orchestrator.Manager.Fanout.{
  ClientTable, AllOpen, fanned_out, fanout_panics, run_fanout, open_stream, close_stream,
  fan_out-get,
}

-- One step of an agent's receiver, the fan-out, or a client's handler, which holds the channel that
-- the table has for its id.
pub data Turn (m : OrchestratorManager) : OrchestratorManager → Type 0 where
  opens : (id : Text) → Turn m (open_stream id m)
  reads :
      (id : Text) (e : ForwardingInfoElement) (ch ch' : Channel ForwardingInfoElement)
      → get id m.clients ≡ some ch
      → recv ch ≡ received e ch'
      → Turn m (record m { clients = insert id ch' m.clients })
  closes :
      (id : Text) (ch shut : Channel ForwardingInfoElement) (n : OrchestratorManager)
      → get id m.clients ≡ some ch
      → close_stream id ch m ≡ some (n, shut)
      → Turn m n
  receives :
      (arrivals : List (Arrival ForwardingInfoElement)) → Turn m (receive_elements arrivals m).0
  fans : (n : OrchestratorManager) → run_fanout m ≡ fanned_out n → Turn m n

pub data Runs (spec : ProbingOrchestratorSpec) : OrchestratorManager → Type 0 where
  start : Runs spec (new_orchestrator_manager spec)
  next : {m n : OrchestratorManager} → Runs spec m → Turn m n → Runs spec n

insert-AllOpen :
    (id : Text) (ch : Channel ForwardingInfoElement) (cs : ClientTable)
    → ch.is_closed ≡ false
    → AllOpen cs
    → AllOpen (insert id ch cs)
unfolding insert
insert-AllOpen id ch [] o h = (o, tt)
insert-AllOpen id ch ((j, c) ∷ cs) o h = ground (arith, insert-AllOpen id ch cs o h.1)

delete-AllOpen : (id : Text) (cs : ClientTable) → AllOpen cs → AllOpen (delete id cs)
unfolding delete
delete-AllOpen id [] h = tt
delete-AllOpen id ((j, c) ∷ cs) h = ground (arith, delete-AllOpen id cs h.1)

get-AllOpen :
    (id : Text) (ch : Channel ForwardingInfoElement) (cs : ClientTable)
    → AllOpen cs
    → get id cs ≡ some ch
    → ch.is_closed ≡ false
unfolding get
get-AllOpen id ch [] h e = ground arith
get-AllOpen id ch ((j, c) ∷ cs) h e = ground (arith, get-AllOpen id ch cs h.1)

-- What the fan-out receives.
pub recv?-Recvs :
    (ch : Option (Channel ForwardingInfoElement))
    → (recv? ch ≡ recv_blocks)
      ⊎ (recv? ch ≡ drained)
      ⊎ ((e : ForwardingInfoElement) × (ch' : Channel ForwardingInfoElement) × (recv? ch
            ≡ received e ch'))
unfolding recv?
recv?-Recvs none = inl refl
recv?-Recvs (some ch) = elim (recv-Recvs ch) [
  | inl (_, inl e) ↦ inr (inl e)
  | inl (_, inr e) ↦ inl e
  | inr (v, rest, b, e) ↦ inr (inr (v, record ch { buffer = rest }, e))
]

-- A turn of the fan-out over open channels.
pub run_fanout-AllOpen :
    (m : OrchestratorManager)
    → AllOpen m.clients
    → (run_fanout m ≢ fanout_panics)
      × ((n : OrchestratorManager) → run_fanout m ≡ fanned_out n → AllOpen n.clients)
unfolding run_fanout
run_fanout-AllOpen m h = elim (recv?-Recvs m.element_ch) [
  | inl e ↦ rw (e, run_fanout) ((λ p. cc), λ n p. cc)
  | inr (inl e) ↦ rw (e, run_fanout) ((λ p. cc), λ n p. cc)
  | inr (inr (elem, ch, e)) ↦
      let (cs, eq, still, looked) = fan_out-get elem m.clients h in
      rw (e, run_fanout)
        (rw (eq, run_fanout)
          ((λ p. cc), λ n p. let same : cs ≡ n.clients = ground arith in rw (← same) still))
]

recv-is_open :
    (ch ch' : Channel ForwardingInfoElement) (e : ForwardingInfoElement)
    → recv ch ≡ received e ch'
    → ch.is_closed ≡ false
    → ch'.is_closed ≡ false
recv-is_open ch ch' e r o = elim (recv-Recvs ch) [
  | inl (_, inl d) ↦ ground arith
  | inl (_, inr d) ↦ ground arith
  | inr (v, rest, b, d) ↦ ground arith
]

close_stream-AllOpen :
    (id : Text) (ch shut : Channel ForwardingInfoElement) (m n : OrchestratorManager)
    → close_stream id ch m ≡ some (n, shut)
    → AllOpen m.clients
    → AllOpen n.clients
unfolding close_stream
close_stream-AllOpen id ch shut m n c h = elim (Option-cases (close ch)) [
  | inl e ↦ absurd (ground arith)
  | inr (done, e) ↦
      let same : delete id m.clients ≡ n.clients = ground arith in
      rw (← same) (delete-AllOpen id m.clients h)
]

pub Turn-AllOpen : {m n : OrchestratorManager} → Turn m n → AllOpen m.clients → AllOpen n.clients
unfolding open_stream close_stream receive_elements make
Turn-AllOpen {m} (opens id) h = insert-AllOpen id (make 128) m.clients refl h
Turn-AllOpen {m} (reads id e ch ch' found r) h =
    insert-AllOpen id ch' m.clients (recv-is_open ch ch' e r (get-AllOpen id ch m.clients h found))
      h
Turn-AllOpen {m} (closes id ch shut n found c) h = close_stream-AllOpen id ch shut m n c h
Turn-AllOpen (receives arrivals) h = h
Turn-AllOpen {m} (fans n e) h = (run_fanout-AllOpen m h).1 n e

Runs-AllOpen :
    {spec : ProbingOrchestratorSpec} {m : OrchestratorManager} → Runs spec m → AllOpen m.clients
unfolding new_orchestrator_manager
Runs-AllOpen start = tt
Runs-AllOpen (next h s) = Turn-AllOpen s (Runs-AllOpen h)

-- However streams open, read and close around the fan-out, it never sends on a closed channel: it
-- does not panic, and every channel in the client table is open.
pub Runs-run_fanout :
    {spec : ProbingOrchestratorSpec} {m : OrchestratorManager}
    → Runs spec m
    → (run_fanout m ≢ fanout_panics) × AllOpen m.clients
Runs-run_fanout {m = m} h = ((run_fanout-AllOpen m (Runs-AllOpen h)).0, Runs-AllOpen h)
