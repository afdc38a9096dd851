-- ===== src/Agent/Manager/Elements/Order.antt =====
-- Which elements `streamElements` of internal/components/agent/manager.go hands to the orchestrator.
use iprl_poc.Common.{
  List, [], ◌∷◌, ◌++◌, Option, some, true, ◌≡◌, refl, sym, ap, ◌∙◌, append_assoc, append-nil, inl,
  inr, ◌⊎◌, arith,
}
use iprl_poc.Common.Int.{ℤ}
use iprl_poc.Common.Channel.{Channel, recv-Recvs, send-Sends}
use iprl_poc.Proto.{ProbingAgentStatus, ProbingDirective, ForwardingInfoElement}
use iprl_poc.Components.{Prober, IsProber}
use iprl_poc.Agent.Manager.Elements.{
  Incoming, directive_arrives, directive_dropped, receive_fails, receiver_goes_on, receiver_returns,
  Outgoing, send_works, send_fails, done_instead, SenderTurn, sender_goes_on, sender_fails,
  sender_returns, sender_waits, receiver_leaves, receiver_turn, hand_over, take_element,
  sender_turn, Session, start, receives, receiver_ends, sends, loses, runs,
}

module _ (p : Prober) where
  receiver_leaves-close :
      (s t : p.State) → receiver_leaves p s ≡ receiver_returns t → p.close s ≡ some t
  unfolding receiver_leaves
  receiver_leaves-close s t e = ground arith

  receiver_returns-close :
      (i : Incoming) (s t : p.State) → receiver_turn p i s ≡ receiver_returns t → p.close s ≡ some t
  unfolding receiver_turn
  receiver_returns-close (directive_arrives d) s t e = ground arith
  receiver_returns-close (directive_dropped d) s t e = receiver_leaves-close s t e
  receiver_returns-close receive_fails s t e = receiver_leaves-close s t e

  receiver_goes_on-pushed :
      (i : Incoming) (s t : p.State)
      → receiver_turn p i s ≡ receiver_goes_on t
      → (ch : Channel ProbingDirective) × (t ≡ p.pushed s ch)
  unfolding receiver_turn receiver_leaves
  receiver_goes_on-pushed (directive_arrives d) s t e = elim (send-Sends (p.push_channel s) d) [
    | inl r ↦
        let ch = p.push_channel s in
        (record ch { buffer = ch.buffer ++ d ∷ [] }, cc (rw (r, receiver_turn) at e))
    | inr (inl r) ↦ absurd (cc (rw (r, receiver_turn) at e))
    | inr (inr r) ↦ absurd (cc (rw (r, receiver_turn) at e))
  ]
  receiver_goes_on-pushed (directive_dropped d) s t e = absurd (ground arith)
  receiver_goes_on-pushed receive_fails s t e = absurd (ground arith)

  -- An element that is handed over is the oldest of the output.
  abbrev IsTaken : ForwardingInfoElement → p.State → p.State → Type 0
  IsTaken e s t =
      (ch : Channel ForwardingInfoElement) × (t ≡ p.pulled s ch)
      × ((p.pull_channel s).buffer ≡ e ∷ ch.buffer)
      × (ch.is_closed ≡ (p.pull_channel s).is_closed)

  abbrev IsHandedOver : SenderTurn p.State → ForwardingInfoElement → p.State → Type 0
  IsHandedOver r e t =
      ((pause : ℤ) × (r ≡ sender_goes_on pause e t)) ⊎ ((pause : ℤ) × (r ≡ sender_fails pause e t))

  hand_over-IsHandedOver :
      (o : Outgoing) (status : Option ProbingAgentStatus) (v e : ForwardingInfoElement)
      (s t : p.State)
      → IsHandedOver (hand_over p o status v s) e t
      → (e ≡ v) × (t ≡ s)
  unfolding hand_over
  hand_over-IsHandedOver o status v e s t (inl (pause, r)) = ground arith
  hand_over-IsHandedOver o status v e s t (inr (pause, r)) = ground arith

  sender_returns-IsHandedOver :
      (e : ForwardingInfoElement) (t : p.State) → ¬ IsHandedOver sender_returns e t
  sender_returns-IsHandedOver e t (inl (pause, r)) = cc
  sender_returns-IsHandedOver e t (inr (pause, r)) = cc

  sender_waits-IsHandedOver :
      (e : ForwardingInfoElement) (t : p.State) → ¬ IsHandedOver sender_waits e t
  sender_waits-IsHandedOver e t (inl (pause, r)) = cc
  sender_waits-IsHandedOver e t (inr (pause, r)) = cc

  take_element-IsTaken :
      (o : Outgoing) (status : Option ProbingAgentStatus) (e : ForwardingInfoElement)
      (s t : p.State)
      → IsHandedOver (take_element p o status s) e t
      → IsTaken e s t
  unfolding take_element
  take_element-IsTaken o status e s t r = elim (recv-Recvs (p.pull_channel s)) [
    | inl (b, inl d) ↦ absurd (sender_returns-IsHandedOver e t (rw (d, take_element) at r))
    | inl (b, inr d) ↦ absurd (sender_waits-IsHandedOver e t (rw (d, take_element) at r))
    | inr (v, rest, b, d) ↦
        let ch : Channel ForwardingInfoElement = record (p.pull_channel s) { buffer = rest } in
        let (same, next) =
          hand_over-IsHandedOver o status v e (p.pulled s ch) t (rw (d, take_element) at r) in
        (ch, next, b ∙ ap (λ w. w ∷ rest) (sym same), refl)
  ]

  sender_turn-IsTaken :
      (o : Outgoing) (status : Option ProbingAgentStatus) (e : ForwardingInfoElement)
      (s t : p.State)
      → IsHandedOver (sender_turn p o status s) e t
      → IsTaken e s t
  unfolding sender_turn
  sender_turn-IsTaken send_works status e s t r = take_element-IsTaken send_works status e s t r
  sender_turn-IsTaken send_fails status e s t r = take_element-IsTaken send_fails status e s t r
  sender_turn-IsTaken done_instead status e s t r = absurd (sender_returns-IsHandedOver e t r)

append_self : (xs ys : List ForwardingInfoElement) → xs ++ ys ≡ xs → ys ≡ []
append_self [] ys e = e
append_self (x ∷ xs) ys e = append_self xs ys (ground arith)

-- One more element is taken from a buffer.
move_one :
    (xs bs rest es : List ForwardingInfoElement) (e : ForwardingInfoElement)
    (all : List ForwardingInfoElement)
    → bs ≡ e ∷ rest
    → xs ++ bs ≡ all
    → (xs ++ e ∷ []) ++ rest ≡ all
move_one xs bs rest es e all b h = append_assoc xs (e ∷ []) rest ∙ ap (λ t. xs ++ t) (sym b) ∙ h

module _ (p : Prober) (h : IsProber p) where
  -- What a session keeps: a valid state, the elements in order, and a closed output that nothing is
  -- put on any more.
  record Kept (s : p.State) (xs es : List ForwardingInfoElement) (t : p.State) : Type 0 where
    valid : h.Valid t
    order : xs ++ (p.pull_channel t).buffer ≡ (p.pull_channel s).buffer ++ es
    stays_closed : (p.pull_channel s).is_closed ≡ true → (p.pull_channel t).is_closed ≡ true
    nothing_new : (p.pull_channel s).is_closed ≡ true → es ≡ []

  taken-Kept :
      (s t u : p.State) (xs es : List ForwardingInfoElement) (e : ForwardingInfoElement)
      → Kept s xs es t
      → IsTaken p e t u
      → Kept s (xs ++ e ∷ []) es u
  taken-Kept s t u xs es e k (ch, next, b, same) = rw next (record {
    valid = h.pulled-Valid t ch same k.valid;
    order = rw (h.pulled-pull_channel t ch) (move_one xs _ ch.buffer es e _ b k.order);
    stays_closed = λ shut. rw (h.pulled-pull_channel t ch) (same ∙ k.stays_closed shut);
    nothing_new = k.nothing_new;
  })

  Session-Kept :
      (s t : p.State) (xs es : List ForwardingInfoElement)
      → h.Valid s
      → Session p h s xs es t
      → Kept s xs es t
  Session-Kept s t xs es v start = record {
    valid = v;
    order = sym (append-nil _);
    stays_closed = λ shut. shut;
    nothing_new = λ shut. refl;
  }
  Session-Kept s u xs es v (receives {t = t} r i e) =
      let k = Session-Kept s t xs es v r in
      let (ch, next) = receiver_goes_on-pushed p i t u e in
      rw next (record {
        valid = h.pushed-Valid t ch k.valid;
        order = rw (h.pushed-pull_channel t ch) k.order;
        stays_closed = λ shut. rw (h.pushed-pull_channel t ch) (k.stays_closed shut);
        nothing_new = k.nothing_new;
      })
  Session-Kept s u xs es v (receiver_ends {t = t} r i e) =
      let k = Session-Kept s t xs es v r in
      let shut = receiver_returns-close p i t u e in
      let (closed, same) = h.close-pull_channel t u shut k.valid in
      record {
        valid = h.close-Valid t u shut k.valid;
        order = rw same k.order;
        stays_closed = λ _. closed;
        nothing_new = k.nothing_new;
      }
  Session-Kept s u _ es v (sends {xs} {t = t} r o status pause e q) =
      taken-Kept s t u xs es e (Session-Kept s t xs es v r)
        (sender_turn-IsTaken p o status e t u (inl (pause, q)))
  Session-Kept s u _ es v (loses {xs} {t = t} r o status pause e q) =
      taken-Kept s t u xs es e (Session-Kept s t xs es v r)
        (sender_turn-IsTaken p o status e t u (inr (pause, q)))
  Session-Kept s u xs _ v (runs {es = es} {t = t} r q) =
      let k = Session-Kept s t xs es v r in
      let out = h.runs-Emits t u q in
      record {
        valid = h.runs-Valid t u q k.valid;
        order =
            ap (λ b. xs ++ b) out.at_end
            ∙ sym (append_assoc xs (p.pull_channel t).buffer out.values)
            ∙ ap (λ b. b ++ out.values) k.order
            ∙ append_assoc (p.pull_channel s).buffer es out.values;
        stays_closed = λ shut. out.same_state ∙ k.stays_closed shut;
        nothing_new = λ shut.
            let still =
              ap (λ (c : Channel ForwardingInfoElement). c.buffer)
                (h.runs_closed t u q (k.stays_closed shut)) in
            let none_put =
              append_self (p.pull_channel t).buffer out.values (sym out.at_end ∙ still) in
            rw none_put (append-nil es ∙ k.nothing_new shut);
      }

  -- While any number of calls of `streamElements` use a prober, the elements handed to Send and then
  -- those still on the output are what was on the output before and then what Run has put on it.
  pub Session-in_order :
      (s t : p.State) (xs es : List ForwardingInfoElement)
      → h.Valid s
      → Session p h s xs es t
      → xs ++ (p.pull_channel t).buffer ≡ (p.pull_channel s).buffer ++ es
  Session-in_order s t xs es v r = (Session-Kept s t xs es v r).order

  -- Once a receive of the agent's stream has failed, Run puts nothing on the output any more, and
  -- however often the stream is opened again, only elements that were on it then are handed over.
  pub receive_fails-Session :
      (s₀ s t : p.State) (xs es : List ForwardingInfoElement)
      → h.Valid s₀
      → receiver_turn p receive_fails s₀ ≡ receiver_returns s
      → Session p h s xs es t
      → (es ≡ []) × (xs ++ (p.pull_channel t).buffer ≡ (p.pull_channel s₀).buffer)
  receive_fails-Session s₀ s t xs es v e r =
      let shut = receiver_returns-close p receive_fails s₀ s e in
      let (closed, same) = h.close-pull_channel s₀ s shut v in
      let k = Session-Kept s t xs es (h.close-Valid s₀ s shut v) r in
      let nothing = k.nothing_new closed in
      (
        nothing,
        k.order
            ∙ ap (λ b. (p.pull_channel s).buffer ++ b) nothing
            ∙ append-nil (p.pull_channel s).buffer
            ∙ same,
      )
