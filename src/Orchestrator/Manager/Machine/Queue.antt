-- ===== src/Orchestrator/Manager/Machine/Queue.antt =====
-- The life of one queue of internal/components/orchestrator/manager.go: open until Close, then nil.
use iprl_poc.Common.{
  ℕ, ◌≤◌, List, [], ◌∷◌, Option, none, some, Bool, true, false, ◌≡◌, ◌≢◌, refl, arith, inl, inr, ap,
  length, length-append,
}
use iprl_poc.Common.Channel.{Channel, InCapacity, make, send?, recv?, received, recv-Recvs, close}
use iprl_poc.Proto.{ProbingDirective}
use iprl_poc.Orchestrator.Manager.Queues.{
  Arrival, message, message_dropped, end_of_stream, stream_failed, loop_panics, receive_loop,
  Departure, cancel, deliver, deliver_fails, send_directives, close_queue, taken_of,
}
use iprl_poc.Orchestrator.Manager.Queues.Order.{receive_loop-Accepts, send_directives-in_order}

module _ {ℓ} {A : Type ℓ} where
  -- The flag is the state of the sync.Once of Close.
  abbrev pub QueueIsSound : Bool → Option (Channel A) → Type ℓ
  QueueIsSound true q = q ≡ none
  QueueIsSound false q = (ch : Channel A) × (q ≡ some ch) × (ch.is_closed ≡ false) × InCapacity ch

  pub make-QueueIsSound : (n : ℕ) → QueueIsSound false (some (make n))
  unfolding make
  make-QueueIsSound n = (make n, refl, refl, omega arith)

  receive_loop_nil :
      (arrivals : List (Arrival A))
      → ((receive_loop arrivals none).0 ≡ none) × ((receive_loop arrivals none).1 ≢ loop_panics)
  unfolding receive_loop send?
  receive_loop_nil [] = (refl, λ e. cc)
  receive_loop_nil (message v ∷ arrivals) = (refl, λ e. cc)
  receive_loop_nil (message_dropped v ∷ arrivals) = (refl, λ e. cc)
  receive_loop_nil (end_of_stream ∷ arrivals) = (refl, λ e. cc)
  receive_loop_nil (stream_failed ∷ arrivals) = (refl, λ e. cc)

  -- A receiving loop keeps it so and does not panic.
  pub receive_loop-QueueIsSound :
      (b : Bool) (arrivals : List (Arrival A)) (q : Option (Channel A))
      → QueueIsSound b q
      → QueueIsSound b (receive_loop arrivals q).0 × ((receive_loop arrivals q).1 ≢ loop_panics)
  receive_loop-QueueIsSound true arrivals q h = rw h (receive_loop_nil arrivals)
  receive_loop-QueueIsSound false arrivals q (ch, e, o, c) =
      let a = receive_loop-Accepts arrivals ch o c in
      let is_open : a.final.is_closed ≡ false = rw a.same_channel o in
      rw e ((a.final, a.left_with, is_open, a.bounded), a.no_panic)

  -- So does a receive.
  pub recv?-QueueIsSound :
      (b : Bool) (q : Option (Channel A)) (v : A) (ch : Channel A)
      → QueueIsSound b q
      → recv? q ≡ received v ch
      → QueueIsSound b (some ch)
  unfolding recv?
  recv?-QueueIsSound true q v ch h r = absurd (ground (arith, h))
  recv?-QueueIsSound false q v ch (c, e, o, room) r = elim (recv-Recvs c) [
    | inl (_, inl d) ↦ absurd (ground arith)
    | inl (_, inr d) ↦ absurd (ground arith)
    | inr (w, rest, b, d) ↦
        let same : record c { buffer = rest } ≡ ch = ground arith in
        let fewer : length rest ≤ c.capacity = omega (arith, room, ap (λ xs. length xs) b) in
        (ch, refl, rw (← same) o, rw (← same) fewer)
  ]

  pub close_queue-QueueIsSound :
      (q : Option (Channel A)) → QueueIsSound false q → close_queue q ≡ some none
  unfolding close_queue close
  close_queue-QueueIsSound q (ch, e, o, c) = ground arith

send_directives_nil : (ds : List Departure) → (send_directives ds none).1 ≡ none
unfolding send_directives recv?
send_directives_nil [] = refl
send_directives_nil (cancel ∷ ds) = refl
send_directives_nil (deliver ∷ ds) = refl
send_directives_nil (deliver_fails ∷ ds) = refl

-- A sending loop keeps it too.
pub send_directives-QueueIsSound :
    (b : Bool) (ds : List Departure) (q : Option (Channel ProbingDirective))
    → QueueIsSound b q
    → QueueIsSound b (send_directives ds q).1
send_directives-QueueIsSound true ds q h = rw h (send_directives_nil ds)
send_directives-QueueIsSound false ds q (ch, e, o, c) =
    let (final, left, order, same) = send_directives-in_order ds ch in
    let is_open : final.is_closed ≡ false = rw same o in
    let taken = taken_of (send_directives ds (some ch)).0 in
    let room : length final.buffer ≤ ch.capacity =
      omega (arith, c, ap (λ xs. length xs) order, length-append taken final.buffer) in
    rw e (final, left, is_open, rw same room)
