-- ===== src/Orchestrator/Manager/Dispatch.antt =====
-- The directive queue of internal/components/orchestrator/manager.go between its users: any number
-- of calls of PushProbingDirectives that fill it, and of PushForwardingInfoElements that hand its
-- directives to their agents, a few rounds of one loop at a time.
pub mod Delivery
use iprl_poc.Common.{
  ℕ, zero, suc, ◌+◌, ◌≤◌, List, [], ◌∷◌, ◌++◌, Option, none, some, Bool, true, false, ◌≡◌, refl,
  sym, ap, ◌∙◌, append_assoc, append-nil, inl, inr, ◌⊎◌, arith, map, Text, length, length-append,
  ltb, Bool-cases,
}
use iprl_poc.Common.Channel.{
  Channel, InCapacity, received, send?, recv?, recv, recv-Recvs, send_room,
}
use iprl_poc.Proto.{ProbingDirective}
use iprl_poc.Orchestrator.Manager.{OrchestratorManager}
use iprl_poc.Orchestrator.Manager.Queues.{
  Arrival, message, message_dropped, end_of_stream, stream_failed, receive_loop, messages, LoopEnd,
  push_probing_directives, Departure, deliver, send_directives, loop_done, loop_waits, Taking,
  taken_of, tally, outcomes,
}
use iprl_poc.Orchestrator.Manager.Queues.Order.{
  Accepts, receive_loop-Accepts, send_directives-in_order, send_directives-tally,
}

-- Some rounds of a generator's loop, or of the loop for the agent of an address.
pub data Leg : Type 0 where
  generator_pushes : List (Arrival ProbingDirective) → Leg
  agent_takes : Text → List Departure → Leg

-- A directive that is taken for an agent, and whether it is handed over.
abbrev pub Delivery : Type 0
Delivery = Text × Taking

-- Rounds of the second goroutine of PushForwardingInfoElements.
unfoldable pub hand_directives :
    Text → List Departure → OrchestratorManager → List Delivery × OrchestratorManager
hand_directives agent ds m =
    let out = send_directives ds m.directive_ch in
    (map (λ d. (agent, d)) out.0, record m { directive_ch = out.1 })

unfoldable pub dispatch : List Leg → OrchestratorManager → List Delivery × OrchestratorManager
dispatch [] m = ([], m)
dispatch (generator_pushes arrivals ∷ legs) m = dispatch legs (push_probing_directives arrivals m).0
dispatch (agent_takes agent ds ∷ legs) m =
    let (now, m') = hand_directives agent ds m in
    let rest = dispatch legs m' in (now ++ rest.0, rest.1)

-- What is pushed in a run: a first part of what each generator sends, one after another.
abbrev pub FirstParts : List Leg → List ProbingDirective → Type 0
FirstParts [] pushed = pushed ≡ []
FirstParts (generator_pushes arrivals ∷ legs) pushed =
    (taken : List ProbingDirective) × (missed : List ProbingDirective) × (rest : List
      ProbingDirective)
    × (messages arrivals ≡ taken ++ missed)
    × (pushed ≡ taken ++ rest)
    × FirstParts legs rest
FirstParts (agent_takes agent ds ∷ legs) pushed = FirstParts legs pushed

abbrev pub directives : List Delivery → List ProbingDirective
directives = map (λ x. x.1.0)

-- The directives that reach their agents.
abbrev pub delivered : List Delivery → List ProbingDirective
delivered [] = []
delivered ((agent, (d, true)) ∷ xs) = d ∷ delivered xs
delivered ((agent, (d, false)) ∷ xs) = delivered xs

abbrev pub takings : List Delivery → List Taking
takings = map (λ x. x.1)

abbrev pub all_outcomes : Bool → List Leg → ℕ
all_outcomes b [] = 0
all_outcomes b (generator_pushes arrivals ∷ legs) = all_outcomes b legs
all_outcomes b (agent_takes agent ds ∷ legs) = outcomes b ds + all_outcomes b legs

takings-append :
    (agent : Text) (ds : List Taking) (later : List Delivery)
    → takings (map (λ d. (agent, d)) ds ++ later) ≡ ds ++ takings later
takings-append agent [] later = refl
takings-append agent (d ∷ ds) later = ap (λ t. d ∷ t) (takings-append agent ds later)

tally-append : (b : Bool) (xs ys : List Taking) → tally b (xs ++ ys) ≡ tally b xs + tally b ys
tally-append b [] ys = omega arith
tally-append b (x ∷ xs) ys = omega (arith, tally-append b xs ys)

directives-append :
    (agent : Text) (ds : List Taking) (later : List Delivery)
    → directives (map (λ d. (agent, d)) ds ++ later) ≡ taken_of ds ++ directives later
directives-append agent [] later = refl
directives-append agent (d ∷ ds) later = ap (λ t. d.0 ∷ t) (directives-append agent ds later)

hand_directives-directives :
    (agent : Text) (ds : List Departure) (m : OrchestratorManager) (ch : Channel ProbingDirective)
    (later : List Delivery)
    → m.directive_ch ≡ some ch
    → directives ((hand_directives agent ds m).0 ++ later)
      ≡ taken_of (send_directives ds (some ch)).0 ++ directives later
unfolding hand_directives
hand_directives-directives agent ds m ch later e = rw e (directives-append agent _ later)

-- What is handed over first goes before what is left to later rounds.
join_rounds :
    (bs xs fs ps ys zs : List ProbingDirective)
    → bs ≡ xs ++ fs
    → fs ++ ps ≡ ys ++ zs
    → bs ++ ps ≡ (xs ++ ys) ++ zs
join_rounds bs xs fs ps ys zs b e =
    ap (λ t. t ++ ps) b ∙ append_assoc xs fs ps ∙ ap (λ t. xs ++ t) e ∙ sym (append_assoc xs ys zs)

-- The queue at the end of a run.
pub record Conserved (legs : List Leg) (ch : Channel ProbingDirective)
    (out : List Delivery × OrchestratorManager) : Type 0 where
  pub final : Channel ProbingDirective
  pub pushed : List ProbingDirective
  pub queue : out.1.directive_ch ≡ some final
  pub first_parts : FirstParts legs pushed
  pub conserved : ch.buffer ++ pushed ≡ directives out.0 ++ final.buffer
  pub bounded : InCapacity final
  pub tallied : (b : Bool) → tally b (takings out.0) ≤ all_outcomes b legs

-- However generators push and agents take, the directives that are taken for agents, in time order,
-- and then those still queued are the ones that were queued and then those pushed: each is taken for
-- one agent once, in the order of arrival, and the queue stays within its capacity. No more are
-- handed over than there are Sends that work, and no more are lost than there are Sends that fail.
pub dispatch-Conserved :
    (legs : List Leg) (m : OrchestratorManager) (ch : Channel ProbingDirective)
    → m.directive_ch ≡ some ch
    → ch.is_closed ≡ false
    → InCapacity ch
    → Conserved legs ch (dispatch legs m)
unfolding dispatch push_probing_directives hand_directives
dispatch-Conserved [] m ch e o h = record {
  final = ch;
  pushed = [];
  queue = e;
  first_parts = refl;
  conserved = append-nil ch.buffer;
  bounded = h;
  tallied = λ b. omega arith;
}
dispatch-Conserved (generator_pushes arrivals ∷ legs) m ch e o h =
    let a = receive_loop-Accepts arrivals ch o h in
    let m' = (push_probing_directives arrivals m).0 in
    let queue : m'.directive_ch ≡ some a.final = rw e a.left_with in
    let is_open : a.final.is_closed ≡ false = rw a.same_channel o in
    let r = dispatch-Conserved legs m' a.final queue is_open a.bounded in
    record {
      final = r.final;
      pushed = a.taken ++ r.pushed;
      queue = r.queue;
      first_parts = (a.taken, a.missed, r.pushed, a.first_part, refl, r.first_parts);
      conserved =
          sym (append_assoc ch.buffer a.taken r.pushed)
          ∙ ap (λ b. b ++ r.pushed) (sym a.in_order)
          ∙ r.conserved;
      bounded = r.bounded;
      tallied = r.tallied;
    }
dispatch-Conserved (agent_takes agent ds ∷ legs) m ch e o h =
    let (f, left, order, same) = send_directives-in_order ds ch in
    let (now, m') = hand_directives agent ds m in
    let queue : m'.directive_ch ≡ some f = rw e left in
    let fits : InCapacity f = rw same (
      omega (
        arith,
        h,
        ap length order,
        length-append (taken_of (send_directives ds (some ch)).0) f.buffer,
      )) in
    let r = dispatch-Conserved legs m' f queue (rw same o) fits in
    record {
      final = r.final;
      pushed = r.pushed;
      queue = r.queue;
      first_parts = r.first_parts;
      conserved =
          join_rounds ch.buffer (taken_of (send_directives ds (some ch)).0) f.buffer r.pushed _
            r.final.buffer order r.conserved
          ∙ ap (λ b. b ++ r.final.buffer)
              (sym (hand_directives-directives agent ds m ch (dispatch legs m').0 e));
      bounded = r.bounded;
      tallied = λ b.
          let now = send_directives-tally b ds m.directive_ch in
          let both =
            tally-append b (send_directives ds m.directive_ch).0 (takings (dispatch legs m').0) in
          rw (takings-append agent (send_directives ds m.directive_ch).0 (dispatch legs m').0)
            (omega (arith, now, both, r.tallied b));
    }
