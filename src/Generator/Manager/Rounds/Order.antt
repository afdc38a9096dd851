-- ===== src/Generator/Manager/Rounds/Order.antt =====
-- Which directives `streamDirectives` of internal/components/generator/manager.go sends, and when it
-- returns.
use iprl_poc.Common.{
  List, [], ◌∷◌, ◌++◌, Option, none, some, Bool, true, false, ◌≡◌, ◌≢◌, refl, sym, ap, ◌∙◌, map,
  inl, inr, ◌⊎◌, arith, Bool-cases, Option-cases,
}
use iprl_poc.Common.Int.{ℤ}
use iprl_poc.Common.Channel.{Channel, recv-Recvs}
use iprl_poc.Proto.{ProbingDirectiveGeneratorStatus, ProbingDirective}
use iprl_poc.Components.{DirectiveGenerator, IsDirectiveGenerator}
use iprl_poc.Generator.Manager.{
  can_stream, send_interval, Pull, pulled, source_closed, context_done, retry_later, stream_ends,
  turn_panics, sends_after, stream_turn,
}
use iprl_poc.Generator.Manager.Rounds.{
  StreamRound, StreamEnd, returns_nil, panics, waits, still_on, returns_error, pull_from,
  begin_round, end_round, stream_directives,
}

-- The directives of what was sent.
abbrev pub directives_of : List (ℤ × ProbingDirective) → List ProbingDirective
directives_of xs = map (λ x. x.1) xs

-- The directive that a failed Send loses.
abbrev pub lost_at : StreamEnd → List ProbingDirective
lost_at (returns_error d) = d ∷ []
lost_at returns_nil = []
lost_at panics = []
lost_at waits = []
lost_at still_on = []

pub stream_turn-pulled :
    (s : ProbingDirectiveGeneratorStatus) (later : Option ProbingDirectiveGeneratorStatus)
    (d : ProbingDirective)
    → can_stream (some s) ≡ true
    → (stream_turn (some s) later (pulled d) ≡ turn_panics)
      ⊎ ((pause : ℤ) × (stream_turn (some s) later (pulled d) ≡ sends_after pause d))
unfolding stream_turn
stream_turn-pulled s later d go = elim (Option-cases (send_interval s later)) [
  | inl e ↦ inl (rw go (rw e))
  | inr (pause, e) ↦ inr (pause, rw go (rw e))
]

pub stream_turn-idle :
    (top later : Option ProbingDirectiveGeneratorStatus)
    → (stream_turn top later context_done ≡ retry_later)
      ⊎ (stream_turn top later context_done ≡ stream_ends)
unfolding stream_turn
stream_turn-idle none later = inl refl
stream_turn-idle (some s) later = ground arith

module _ (g : DirectiveGenerator) (h : IsDirectiveGenerator g) where
  -- A pull takes the oldest directive or leaves the generator as it is.
  abbrev Pulls : g.State → Option (Pull ProbingDirective × g.State) → Type 0
  Pulls s out =
      (out ≡ none)
      ⊎ (out ≡ some (context_done, s))
      ⊎ (out ≡ some (source_closed, s))
      ⊎ ((d : ProbingDirective) × (ch : Channel ProbingDirective) × (out
            ≡ some (pulled d, g.pulled s ch))
          × ((g.pull_channel s).buffer ≡ d ∷ ch.buffer)
          × (ch.is_closed ≡ (g.pull_channel s).is_closed))

  pull_from-Pulls : (done : Bool) (s : g.State) → Pulls s (pull_from g done s)
  unfolding pull_from
  pull_from-Pulls true s = inr (inl refl)
  pull_from-Pulls false s = elim (recv-Recvs (g.pull_channel s)) [
    | inl (b, inl d) ↦ inr (inr (inl (rw d)))
    | inl (b, inr d) ↦ inl (rw d)
    | inr (v, rest, b, d) ↦
        inr (inr (inr (v, record (g.pull_channel s) { buffer = rest }, rw d, b, refl)))
  ]

  abbrev InOrder : g.State → List (ℤ × ProbingDirective) × (StreamEnd × g.State) → Type 0
  InOrder s (out, (end, t)) =
      end ≢ panics
      → directives_of out ++ lost_at end ++ (g.pull_channel t).buffer ≡ (g.pull_channel s).buffer

  -- How a round ends, after a pull or without one.
  idle-InOrder :
      (r : StreamRound) (rest : List (ℤ × ProbingDirective) × (StreamEnd × g.State)) (s : g.State)
      → InOrder s rest
      → InOrder s (end_round g r (stream_turn r.top r.after context_done) rest s)
  unfolding end_round
  idle-InOrder r rest s k = elim (stream_turn-idle r.top r.after) [
    | inl e ↦ rw e (elim (Bool-cases r.is_done) [
      | inl is_over ↦ rw is_over (λ _. refl)
      | inr goes ↦ rw goes k
    ])
    | inr e ↦ rw e (λ _. refl)
  ]

  closed-InOrder :
      (r : StreamRound) (status : ProbingDirectiveGeneratorStatus)
      (rest : List (ℤ × ProbingDirective) × (StreamEnd × g.State)) (s : g.State)
      → InOrder s rest
      → can_stream (some status) ≡ true
      → InOrder s (end_round g r (stream_turn (some status) r.after source_closed) rest s)
  unfolding end_round stream_turn
  closed-InOrder r status rest s k go = rw go (λ _. refl)

  pulled-InOrder :
      (r : StreamRound) (status : ProbingDirectiveGeneratorStatus) (d : ProbingDirective)
      (rest : List (ℤ × ProbingDirective) × (StreamEnd × g.State)) (s t : g.State)
      → InOrder t rest
      → can_stream (some status) ≡ true
      → (g.pull_channel s).buffer ≡ d ∷ (g.pull_channel t).buffer
      → InOrder s (end_round g r (stream_turn (some status) r.after (pulled d)) rest t)
  unfolding end_round
  pulled-InOrder r status d rest s t k go front = elim (stream_turn-pulled status r.after d go) [
    | inl e ↦ rw e (λ n. absurd (n refl))
    | inr (pause, e) ↦ rw e (elim (Bool-cases r.sends) [
      | inl works ↦ rw works (λ n. ap (λ xs. d ∷ xs) (k n) ∙ sym front)
      | inr fails ↦ rw fails (λ n. sym front)
    ])
  ]

  -- How a round begins: a pull is of a round whose status allows directives.
  abbrev Begins : StreamRound → g.State → Option (Pull ProbingDirective × g.State) → Type 0
  Begins r s out =
      (out ≡ none)
      ⊎ (out ≡ some (context_done, s))
      ⊎ ((status : ProbingDirectiveGeneratorStatus) × (r.top ≡ some status)
          × (can_stream (some status) ≡ true)
          × ((out ≡ some (source_closed, s))
              ⊎ ((d : ProbingDirective) × (ch : Channel ProbingDirective) × (out
                    ≡ some (pulled d, g.pulled s ch))
                  × ((g.pull_channel s).buffer ≡ d ∷ ch.buffer)
                  × (ch.is_closed ≡ (g.pull_channel s).is_closed))))

  going-Begins :
      (r : StreamRound) (s : g.State) (status : ProbingDirectiveGeneratorStatus)
      → r.top ≡ some status
      → can_stream (some status) ≡ true
      → Begins r s (pull_from g r.is_done s)
  going-Begins r s status e go = elim (pull_from-Pulls r.is_done s) [
    | inl w ↦ inl w
    | inr (inl w) ↦ inr (inl w)
    | inr (inr (inl w)) ↦ inr (inr (status, e, go, inl w))
    | inr (inr (inr w)) ↦ inr (inr (status, e, go, inr w))
  ]

  begin_round-Begins : (r : StreamRound) (s : g.State) → Begins r s (begin_round g r s)
  unfolding can_stream
  begin_round-Begins r s = elim (Option-cases r.top) [
    | inl e ↦
        let waits_on : begin_round g r s ≡ some (context_done, s) =
          unfold begin_round in rw e refl in
        inr (inl waits_on)
    | inr (status, e) ↦ elim (Bool-cases (can_stream (some status))) [
      | inl go ↦
          let pulls : begin_round g r s ≡ pull_from g r.is_done s =
            unfold begin_round in rw (e, go) refl in
          rw pulls (going-Begins r s status e go)
      | inr stop ↦
          let waits_on : begin_round g r s ≡ some (context_done, s) =
            unfold begin_round in rw (e, stop) refl in
          inr (inl waits_on)
    ]
  ]

  -- Unless a round panics, the directives that are sent, then the one that a failed Send loses, if
  -- one fails, and then those still on the channel, are those that were on the channel, in that order.
  pub stream_directives-in_order :
      (rs : List StreamRound) (s : g.State)
      → let (sent, (end, t)) = stream_directives g rs s in
        end ≢ panics
        → directives_of sent ++ lost_at end ++ (g.pull_channel t).buffer ≡ (g.pull_channel s).buffer
  unfolding stream_directives end_round
  stream_directives-in_order [] s = λ n. refl
  stream_directives-in_order (r ∷ rs) s = elim (begin_round-Begins r s) [
    | inl e ↦ rw (e, stream_directives) (λ n. refl)
    | inr (inl e) ↦ rw (e, stream_directives) (idle-InOrder r _ s (stream_directives-in_order rs s))
    | inr (inr (status, top, go, inl e)) ↦
        rw (e, stream_directives, top)
          (closed-InOrder r status _ s (stream_directives-in_order rs s) go)
    | inr (inr (status, top, go, inr (d, ch, e, front, same))) ↦
        let t = g.pulled s ch in
        let kept =
          ap (λ (c : Channel ProbingDirective). d ∷ c.buffer) (h.pulled-pull_channel s ch) in
        rw (e, stream_directives, top)
          (pulled-InOrder r status d _ s t (stream_directives-in_order rs t) go (front ∙ sym kept))
  ]
