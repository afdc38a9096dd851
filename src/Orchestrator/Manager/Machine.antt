-- ===== src/Orchestrator/Manager/Machine.antt =====
-- The whole state of the orchestrator of internal/components/orchestrator/manager.go: the registry,
-- the two queues and the table of clients, under any interleaving of all calls and loops.
mod Queue
mod Keeps
use iprl_poc.Common.{
  List, Option, none, some, true, false, ◌≡◌, ◌≢◌, refl, arith, inl, inr, Text, Option-cases,
  Bool-cases,
}
use iprl_poc.Common.Channel.{Channel, close}
use iprl_poc.Common.GoMap.{delete}
use iprl_poc.Proto.{ProbingOrchestratorSpec, ProbingDirective, ForwardingInfoElement}
use iprl_poc.Orchestrator.Store.Consistency.{IsConsistent, new_component_store-IsConsistent}
use iprl_poc.Orchestrator.Store.Directory.{InSync, new_component_store-InSync}
use iprl_poc.Orchestrator.Manager.{
  OrchestratorManager, new_orchestrator_manager, set_spec, set_status, join_agent, join_generator,
  leave, notification_tick,
}
use iprl_poc.Orchestrator.Manager.Reachable.{
  Step, agent_joins, generator_joins, component_leaves, tick, spec_set, status_set,
  Step-IsConsistent,
}
use iprl_poc.Orchestrator.Manager.Queues.{
  Arrival, Departure, loop_panics, receive_loop, push_probing_directives, receive_elements,
  send_directives, close_manager, close_queue,
}
use iprl_poc.Orchestrator.Manager.Dispatch.{hand_directives}
use iprl_poc.Orchestrator.Manager.Fanout.{
  AllOpen, fanned_out, fanout_panics, fan_out, fan_out-get, run_fanout, open_stream, close_stream,
}
use iprl_poc.Orchestrator.Manager.Clients.{
  Turn, opens, reads, closes, receives, fans, Turn-AllOpen, run_fanout-AllOpen, recv?-Recvs,
}
use Keeps.{Step-queues, TurnKeeps, Turn-keeps}
use Queue.{
  QueueIsSound, make-QueueIsSound, receive_loop-QueueIsSound, send_directives-QueueIsSound,
  recv?-QueueIsSound, close_queue-QueueIsSound,
}

-- One step of a handler or a loop: a call that touches the registry, a turn of a client, of an
-- agent's receiver or of the fan-out, or some rounds of a stream's loop over the directive queue.
pub data Handler (m : OrchestratorManager) : OrchestratorManager → Type 0 where
  calls : {n : OrchestratorManager} → Step m n → Handler m n
  turns : {n : OrchestratorManager} → Turn m n → Handler m n
  pushes :
      (arrivals : List (Arrival ProbingDirective))
      → Handler m (push_probing_directives arrivals m).0
  hands : (agent : Text) (ds : List Departure) → Handler m (hand_directives agent ds m).1

-- Such a step, or Close.
pub data Action (m : OrchestratorManager) : OrchestratorManager → Type 0 where
  handles : {n : OrchestratorManager} → Handler m n → Action m n
  shuts : {n : OrchestratorManager} → close_manager m ≡ some n → Action m n

pub data Reached (spec : ProbingOrchestratorSpec) : OrchestratorManager → Type 0 where
  start : Reached spec (new_orchestrator_manager spec)
  next : {m n : OrchestratorManager} → Reached spec m → Action m n → Reached spec n

-- Both queues are open and within their capacity until Close, and nil after it.
pub record IsSound (m : OrchestratorManager) : Type 0 where
  pub consistent : IsConsistent m.store
  pub clients_open : AllOpen m.clients
  pub directives_sound : QueueIsSound m.once_done m.directive_ch
  pub elements_sound : QueueIsSound m.once_done m.element_ch

-- No handler touches the sync.Once of Close.
pub Handler-once_done :
    {m n : OrchestratorManager} → Handler m n → IsSound m → n.once_done ≡ m.once_done
unfolding push_probing_directives hand_directives
Handler-once_done (calls s) h = let (clients, directives, elements, once) = Step-queues s in once
Handler-once_done (turns t) h =
    let (store, directives, once, elements) = Turn-keeps t h.elements_sound in once
Handler-once_done (pushes arrivals) h = refl
Handler-once_done (hands agent ds) h = refl

Step-IsSound : {m n : OrchestratorManager} → Step m n → IsSound m → IsSound n
Step-IsSound s h =
    let (clients, directives, elements, once) = Step-queues s in
    record {
      consistent = Step-IsConsistent s h.consistent;
      clients_open = rw clients h.clients_open;
      directives_sound = rw (directives, once) h.directives_sound;
      elements_sound = rw (elements, once) h.elements_sound;
    }

Turn-IsSound : {m n : OrchestratorManager} → Turn m n → IsSound m → IsSound n
Turn-IsSound t h =
    let (store, directives, once, elements) = Turn-keeps t h.elements_sound in
    record {
      consistent = rw store h.consistent;
      clients_open = Turn-AllOpen t h.clients_open;
      directives_sound = rw (directives, once) h.directives_sound;
      elements_sound = elements;
    }

-- Close of a sound manager works, and does nothing the second time.
pub close_manager_sound :
    (m : OrchestratorManager)
    → IsSound m
    → close_manager m ≡ some (record m { directive_ch = none; element_ch = none; once_done = true })
unfolding close_manager
close_manager_sound m h = elim (Bool-cases m.once_done) [
  | inl shut ↦
      let directives : m.directive_ch ≡ none = rw shut at h.directives_sound in
      let elements : m.element_ch ≡ none = rw shut at h.elements_sound in ground arith
  | inr is_open ↦
      let directives = close_queue-QueueIsSound m.directive_ch (rw is_open at h.directives_sound) in
      let elements = close_queue-QueueIsSound m.element_ch (rw is_open at h.elements_sound) in
      rw (is_open, close_manager) (rw (directives, elements) refl)
]

pub Handler-IsSound : {m n : OrchestratorManager} → Handler m n → IsSound m → IsSound n
unfolding push_probing_directives hand_directives
Handler-IsSound (calls s) h = Step-IsSound s h
Handler-IsSound (turns t) h = Turn-IsSound t h
Handler-IsSound {m} (pushes arrivals) h = record {
  consistent = h.consistent;
  clients_open = h.clients_open;
  directives_sound =
      (receive_loop-QueueIsSound m.once_done arrivals m.directive_ch h.directives_sound).0;
  elements_sound = h.elements_sound;
}
Handler-IsSound {m} (hands agent ds) h = record {
  consistent = h.consistent;
  clients_open = h.clients_open;
  directives_sound = send_directives-QueueIsSound m.once_done ds m.directive_ch h.directives_sound;
  elements_sound = h.elements_sound;
}

pub Action-IsSound : {m n : OrchestratorManager} → Action m n → IsSound m → IsSound n
Action-IsSound (handles a) h = Handler-IsSound a h
Action-IsSound {m} {n} (shuts c) h =
    let shut : OrchestratorManager = record m {
      directive_ch = none;
      element_ch = none;
      once_done = true;
    } in
    let done : close_manager m ≡ some shut = close_manager_sound m h in
    let same : shut ≡ n = ground arith in
    rw (← same) (record {
      consistent = h.consistent;
      clients_open = h.clients_open;
      directives_sound = refl;
      elements_sound = refl;
    })

pub new_manager-IsSound : (spec : ProbingOrchestratorSpec) → IsSound (new_orchestrator_manager spec)
unfolding new_orchestrator_manager
new_manager-IsSound spec = record {
  consistent = new_component_store-IsConsistent;
  clients_open = tt;
  directives_sound = make-QueueIsSound spec.directive_buffer_length;
  elements_sound = make-QueueIsSound spec.element_buffer_length;
}

Reached-IsSound :
    {spec : ProbingOrchestratorSpec} {m : OrchestratorManager} → Reached spec m → IsSound m
Reached-IsSound {spec} start = new_manager-IsSound spec
Reached-IsSound (next h a) = Action-IsSound a (Reached-IsSound h)

-- No next step of a manager panics, and Close takes effect.
pub record IsCalm (m : OrchestratorManager) : Type 0 where
  pub push_calm :
      (arrivals : List (Arrival ProbingDirective))
      → (push_probing_directives arrivals m).1 ≢ loop_panics
  pub receive_calm :
      (arrivals : List (Arrival ForwardingInfoElement))
      → (receive_elements arrivals m).1 ≢ loop_panics
  pub fanout_calm : run_fanout m ≢ fanout_panics
  pub close_calm :
      close_manager m ≡ some (record m { directive_ch = none; element_ch = none; once_done = true })

-- However components join (again, too), leave and are notified, streams push and take, clients come and
-- go, and Close is called, in any order: the registry is consistent, every client's channel is open,
-- both queues are open and within their capacity until Close and nil after it, no receiver or fan-out
-- that starts in that state panics, and a Close takes effect without a panic.
pub Reached-IsCalm :
    {spec : ProbingOrchestratorSpec} {m : OrchestratorManager}
    → Reached spec m
    → IsSound m × IsCalm m
unfolding push_probing_directives receive_elements
Reached-IsCalm {m = m} r =
    let h = Reached-IsSound r in
    (
      h,
      record {
        push_calm = λ arrivals.
            (receive_loop-QueueIsSound m.once_done arrivals m.directive_ch h.directives_sound).1;
        receive_calm = λ arrivals.
            (receive_loop-QueueIsSound m.once_done arrivals m.element_ch h.elements_sound).1;
        fanout_calm = (run_fanout-AllOpen m h.clients_open).0;
        close_calm = close_manager_sound m h;
      },
    )
