-- ===== src/Orchestrator/Manager/Queues/Order.antt =====
-- What the loops of internal/components/orchestrator/manager.go put on a queue and take from it.
use iprl_poc.Common.{
  ◌+◌, ◌≤◌, map, List, [], ◌∷◌, ◌++◌, Option, Bool, none, some, true, false, if◌then◌else◌, ◌≡◌,
  refl, ap, sym, ◌∙◌, inl, inr, arith, append_assoc, append-nil, Bool-cases, ◌≢◌, length, ltb,
  ltb→lt, length-append,
}
use iprl_poc.Common.Channel.{Channel, InCapacity, send?, recv?, send_room, send_full, recv-Recvs}
use iprl_poc.Proto.{ProbingDirective}
use iprl_poc.Orchestrator.Manager.Queues.{
  Arrival, message, message_dropped, end_of_stream, stream_failed, LoopEnd, loop_done,
  loop_cancelled, loop_failed, loop_waits, loop_panics, receive_loop, messages, Departure, cancel,
  deliver, deliver_fails, send_directives, taken_of, tally, outcomes,
}

abbrev pub is_done : LoopEnd → Bool
is_done loop_done = true
is_done _ = false

-- What becomes of the queue `ch` in a run of the receiving loop with the result `out`.
pub record Accepts {ℓ} {A : Type ℓ} (arrivals : List (Arrival A)) (ch : Channel A)
    (out : Option (Channel A) × LoopEnd) : Type ℓ where
  pub final : Channel A
  pub taken : List A
  pub missed : List A
  pub left_with : out.0 ≡ some final
  pub in_order : final.buffer ≡ ch.buffer ++ taken
  pub first_part : messages arrivals ≡ taken ++ missed
  pub whole : (if is_done out.1 then missed else []) ≡ []
  pub same_channel : final ≡ record ch { buffer = final.buffer }
  pub bounded : InCapacity final
  pub no_panic : out.1 ≢ loop_panics

-- A round that ends the loop and leaves the queue alone.
stays {ℓ} :
    {A : Type ℓ} (arrivals : List (Arrival A)) (missed : List A) (ch : Channel A) (e : LoopEnd)
    → InCapacity ch
    → messages arrivals ≡ missed
    → (if is_done e then missed else []) ≡ []
    → e ≢ loop_panics
    → Accepts arrivals ch (some ch, e)
stays arrivals missed ch e h all done calm = record {
  final = ch;
  taken = [];
  missed = missed;
  left_with = refl;
  in_order = sym (append-nil ch.buffer);
  first_part = all;
  whole = done;
  same_channel = refl;
  bounded = h;
  no_panic = calm;
}

-- A round that puts a message on the queue, before the rest of the loop.
puts {ℓ} :
    {A : Type ℓ} (v : A) (arrivals : List (Arrival A)) (ch : Channel A)
    (out : Option (Channel A) × LoopEnd)
    → Accepts arrivals (record ch { buffer = ch.buffer ++ v ∷ [] }) out
    → Accepts (message v ∷ arrivals) ch out
puts v arrivals ch out a = record {
  final = a.final;
  taken = v ∷ a.taken;
  missed = a.missed;
  left_with = a.left_with;
  in_order = a.in_order ∙ append_assoc ch.buffer (v ∷ []) a.taken;
  first_part = ap (λ t. v ∷ t) a.first_part;
  whole = a.whole;
  same_channel = a.same_channel;
  bounded = a.bounded;
  no_panic = a.no_panic;
}

-- What a receiving loop puts on an open queue is a first part of the stream's messages, in their
-- order, behind what was there and within the capacity; a loop that ends with the stream has put
-- all; no run panics.
pub receive_loop-Accepts {ℓ} :
    {A : Type ℓ} (arrivals : List (Arrival A)) (ch : Channel A)
    → ch.is_closed ≡ false
    → InCapacity ch
    → Accepts arrivals ch (receive_loop arrivals (some ch))
unfolding receive_loop send?
receive_loop-Accepts [] ch o h = stays [] [] ch loop_waits h refl refl (λ e. cc)
receive_loop-Accepts (end_of_stream ∷ rest) ch o h =
    stays (end_of_stream ∷ rest) [] ch loop_done h refl refl (λ e. cc)
receive_loop-Accepts (stream_failed ∷ rest) ch o h =
    stays (stream_failed ∷ rest) [] ch loop_failed h refl refl (λ e. cc)
receive_loop-Accepts (message_dropped v ∷ rest) ch o h =
    stays (message_dropped v ∷ rest) (v ∷ []) ch loop_cancelled h refl refl (λ e. cc)
receive_loop-Accepts (message v ∷ rest) ch o h =
    elim (Bool-cases (ltb (length ch.buffer) ch.capacity)) [
      | inl room ↦
          let more : Channel _ = record ch { buffer = ch.buffer ++ v ∷ [] } in
          rw (send_room ch v o room, receive_loop, send?)
            (puts v rest ch _ (
              receive_loop-Accepts rest more o
                (omega (arith, ltb→lt _ _ room, length-append ch.buffer (v ∷ [])))))
      | inr full ↦
          rw (send_full ch v o full, receive_loop, send?)
            (stays (message v ∷ rest) (messages (message v ∷ rest)) ch loop_waits h refl refl
              (λ e. cc))
    ]

-- What the sending loop takes for the agent is a first part of the queue, in order; the rest stays.
pub send_directives-in_order :
    (ds : List Departure) (ch : Channel ProbingDirective)
    → (final : Channel ProbingDirective) × ((send_directives ds (some ch)).1 ≡ some final)
      × (ch.buffer ≡ taken_of (send_directives ds (some ch)).0 ++ final.buffer)
      × (final ≡ record ch { buffer = final.buffer })
unfolding send_directives recv?
send_directives-in_order [] ch = (ch, refl, refl, refl)
send_directives-in_order (cancel ∷ ds) ch = (ch, refl, refl, refl)
send_directives-in_order (deliver ∷ ds) ch = elim (recv-Recvs ch) [
  | inl (_, inl e) ↦ rw (e, send_directives, recv?) (ch, refl, refl, refl)
  | inl (_, inr e) ↦ rw (e, send_directives, recv?) (ch, refl, refl, refl)
  | inr (v, rest, b, e) ↦
      let (final, left, order, same) = send_directives-in_order ds (record ch { buffer = rest }) in
      rw (e, send_directives, recv?) (final, left, b ∙ ap (λ t. v ∷ t) order, same)
]
send_directives-in_order (deliver_fails ∷ ds) ch = elim (recv-Recvs ch) [
  | inl (_, inl e) ↦ rw (e, send_directives, recv?) (ch, refl, refl, refl)
  | inl (_, inr e) ↦ rw (e, send_directives, recv?) (ch, refl, refl, refl)
  | inr (v, rest, b, e) ↦
      rw (e, send_directives, recv?) (record ch { buffer = rest }, refl, b, refl)
]

-- It hands no more directives over than there are Sends that work, and loses no more than fail.
pub send_directives-tally :
    (b : Bool) (ds : List Departure) (q : Option (Channel ProbingDirective))
    → tally b (send_directives ds q).0 ≤ outcomes b ds
unfolding send_directives recv?
send_directives-tally b [] q = omega arith
send_directives-tally b (cancel ∷ ds) q = omega arith
send_directives-tally b (deliver ∷ ds) none = omega arith
send_directives-tally b (deliver ∷ ds) (some ch) = elim (recv-Recvs ch) [
  | inl (_, inl e) ↦ rw (e, send_directives, recv?) (omega arith)
  | inl (_, inr e) ↦ rw (e, send_directives, recv?) (omega arith)
  | inr (v, rest, c, e) ↦
      let later = send_directives-tally b ds (some (record ch { buffer = rest })) in
      rw (e, send_directives, recv?) (omega (arith, later))
]
send_directives-tally b (deliver_fails ∷ ds) none = omega arith
send_directives-tally b (deliver_fails ∷ ds) (some ch) = elim (recv-Recvs ch) [
  | inl (_, inl e) ↦ rw (e, send_directives, recv?) (omega arith)
  | inl (_, inr e) ↦ rw (e, send_directives, recv?) (omega arith)
  | inr (v, rest, c, e) ↦ rw (e, send_directives, recv?) (omega arith)
]

-- Room for a whole stream: the loop puts all of its messages on the queue.
pub receive_loop-room :
    {A : Type 0} (vs : List A) (ch : Channel A)
    → ch.is_closed ≡ false
    → length ch.buffer + length vs ≤ ch.capacity
    → receive_loop (map (λ v. message v) vs) (some ch)
      ≡ (some (record ch { buffer = ch.buffer ++ vs }), loop_waits)
unfolding receive_loop send?
receive_loop-room [] ch o h =
    ap (λ b. (some (record ch { buffer = b }), loop_waits)) (sym (append-nil ch.buffer))
receive_loop-room {A} (v ∷ vs) ch o h =
    let more : Channel A = record ch { buffer = ch.buffer ++ v ∷ [] } in
    rw (send_room ch v o (ground arith), receive_loop, send?)
      (receive_loop-room vs more o (omega (arith, h, length-append ch.buffer (v ∷ [])))
        ∙ ap (λ b. (some (record ch { buffer = b }), loop_waits))
            (append_assoc ch.buffer (v ∷ []) vs))
