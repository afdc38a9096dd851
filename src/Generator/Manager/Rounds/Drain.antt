-- ===== src/Generator/Manager/Rounds/Drain.antt =====
-- When `streamDirectives` of internal/components/generator/manager.go returns.
use iprl_poc.Common.{
  ◌<◌, List, [], ◌∷◌, some, true, false, ◌≡◌, refl, sym, ap, ◌∙◌, arith, length, All,
}
use iprl_poc.Common.Int.{ℤ}
use iprl_poc.Common.Channel.{Channel, drained, recv, recv_front}
use iprl_poc.Proto.{ProbingDirectiveGeneratorStatus, ProbingDirective}
use iprl_poc.Components.{DirectiveGenerator, IsDirectiveGenerator}
use iprl_poc.Generator.Manager.{
  can_stream, send_interval, pulled, source_closed, stream_ends, sends_after, stream_turn,
}
use iprl_poc.Generator.Manager.Rounds.{
  StreamRound, StreamEnd, returns_nil, pull_from, begin_round, end_round, stream_directives,
}
use iprl_poc.Generator.Manager.Rounds.Order.{directives_of}

-- A round with a rate and agents, in which the select does not take a Done case and Send works.
pub record IsStreaming (r : StreamRound) : Type 0 where
  pub status : ProbingDirectiveGeneratorStatus
  pub pause : ℤ
  pub has_status : r.top ≡ some status
  pub allows : can_stream (some status) ≡ true
  pub paced : send_interval status r.after ≡ some pause
  pub goes : r.is_done ≡ false
  pub works : r.sends ≡ true

recv_closed :
    {A : Type 0} (ch : Channel A) → ch.buffer ≡ [] → ch.is_closed ≡ true → recv ch ≡ drained
unfolding recv
recv_closed ch e shut = rw e (rw shut)

end_streaming :
    (r : StreamRound) (d : ProbingDirective) (v : IsStreaming r)
    → stream_turn r.top r.after (pulled d) ≡ sends_after v.pause d
unfolding stream_turn
end_streaming r d v = rw v.has_status (rw v.allows (rw v.paced))

stream_closed :
    (r : StreamRound) → IsStreaming r → stream_turn r.top r.after source_closed ≡ stream_ends
unfolding stream_turn
stream_closed r v = rw v.has_status (rw v.allows)

module _ (g : DirectiveGenerator) (h : IsDirectiveGenerator g) where
  begin_streaming :
      (r : StreamRound) (s : g.State) → IsStreaming r → begin_round g r s ≡ pull_from g false s
  unfolding begin_round
  begin_streaming r s v = rw (v.has_status, v.allows, v.goes) refl

  pull_closed :
      (s : g.State)
      → (g.pull_channel s).buffer ≡ []
      → (g.pull_channel s).is_closed ≡ true
      → pull_from g false s ≡ some (source_closed, s)
  unfolding pull_from
  pull_closed s b shut = rw (recv_closed (g.pull_channel s) b shut) refl

  pull_front :
      (s : g.State) (d : ProbingDirective) (ds : List ProbingDirective)
      → (g.pull_channel s).buffer ≡ d ∷ ds
      → pull_from g false s
        ≡ some (pulled d, g.pulled s (record (g.pull_channel s) { buffer = ds }))
  unfolding pull_from
  pull_front s d ds b = rw (recv_front (g.pull_channel s) d ds b) refl

  abbrev Drains : g.State → List (ℤ × ProbingDirective) × (StreamEnd × g.State) → Type 0
  Drains s (sent, (end, t)) = (end ≡ returns_nil) × (directives_of sent ≡ (g.pull_channel s).buffer)

  sent-Drains :
      (r : StreamRound) (v : IsStreaming r) (d : ProbingDirective)
      (rest : List (ℤ × ProbingDirective) × (StreamEnd × g.State)) (s t : g.State)
      → (g.pull_channel s).buffer ≡ d ∷ (g.pull_channel t).buffer
      → Drains t rest
      → Drains s (end_round g r (stream_turn r.top r.after (pulled d)) rest t)
  unfolding end_round
  sent-Drains r v d rest s t front (ended, all) =
      rw (end_streaming r d v) (rw v.works (ended, ap (λ xs. d ∷ xs) all ∙ sym front))

  drains :
      (ds : List ProbingDirective) (rs : List StreamRound) (s : g.State)
      → (g.pull_channel s).buffer ≡ ds
      → (g.pull_channel s).is_closed ≡ true
      → length ds < length rs
      → All IsStreaming rs
      → Drains s (stream_directives g rs s)
  unfolding stream_directives end_round
  drains ds [] s b shut n v = absurd (omega arith)
  drains [] (r ∷ rs) s b shut n v =
      rw (begin_streaming r s v.0 ∙ pull_closed s b shut, stream_directives)
        (rw (stream_closed r v.0) (refl, sym b))
  drains (d ∷ ds) (r ∷ rs) s b shut n v =
      let ch : Channel ProbingDirective = record (g.pull_channel s) { buffer = ds } in
      let left = h.pulled-pull_channel s ch in
      let buffer_left = ap (λ (c : Channel ProbingDirective). c.buffer) left in
      let still_shut = ap (λ (c : Channel ProbingDirective). c.is_closed) left ∙ shut in
      let rest = drains ds rs (g.pulled s ch) buffer_left still_shut (omega arith) v.1 in
      rw (begin_streaming r s v.0 ∙ pull_front s d ds b, stream_directives)
        (sent-Drains r v.0 d _ s (g.pulled s ch) (b ∙ ap (λ xs. d ∷ xs) (sym buffer_left)) rest)

  -- On a generator that is closed, the loop returns: in one round more than there are directives on
  -- its channel, if each round has a rate and agents and its Send works, it sends all of them in
  -- order and returns nil.
  pub stream_directives-drains :
      (rs : List StreamRound) (s : g.State)
      → (g.pull_channel s).is_closed ≡ true
      → length (g.pull_channel s).buffer < length rs
      → All IsStreaming rs
      → let (sent, (end, t)) = stream_directives g rs s in
        (end ≡ returns_nil) × (directives_of sent ≡ (g.pull_channel s).buffer)
  stream_directives-drains rs s shut n v = drains (g.pull_channel s).buffer rs s refl shut n v
