-- ===== src/Agent/Prober/Origins.antt =====
-- All runs of the prober of internal/components/agent/caracal_prober.go: directives, answers, ticks,
-- a reader of the output, changes of the vantage point and Close, in any order.
use iprl_poc.Common.{
  ℕ, [], ◌∷◌, Option, none, some, Bool, true, false, ◌≡◌, refl, subst, inl, inr, arith, All,
  All-append,
}
use iprl_poc.Common.GoMap.{get, insert}
use iprl_poc.Common.Channel.{Channel, received, recv, make, recv-Recvs, send-Sends, close}
use iprl_poc.Proto.{ProbingDirective, VantagePoint, ForwardingInfoElement}
use iprl_poc.Agent.Caracal.{CaracalResponse}
use iprl_poc.Agent.Prober.{
  Net, CaracalProber, Writes, both_written, near_fails, far_fails, new_caracal_prober,
  directive_key, send_directive, emit, handle_response, cleanup_expired_probes, close_prober,
}
use iprl_poc.Agent.Prober.Matching.{fresh_probe}
use iprl_poc.Agent.Prober.Soundness.{
  IsMatched, Origin, OriginOf, Inv, insert-Inv, drop_expired-Inv, match_response_sound,
}

-- `Sent` holds of every directive that is sent.
pub data Reach (net : Net) (Sent : ProbingDirective → Type 0) : CaracalProber → Type 0 where
  start :
      (buffer timeout : ℕ) (v : Option VantagePoint)
      → Reach net Sent (new_caracal_prober buffer timeout v)
  sends :
      {c : CaracalProber}
      → Reach net Sent c
      → (now : ℕ) (w : Writes) (d : ProbingDirective) → Sent d
      → Reach net Sent (send_directive net now w d c).0
  reads :
      {c : CaracalProber}
      → Reach net Sent c
      → (now : ℕ) (done : Bool) (r : CaracalResponse)
      → Reach net Sent (handle_response net now done r c).0
  ticks :
      {c : CaracalProber}
      → Reach net Sent c
      → (now : ℕ) → Reach net Sent (cleanup_expired_probes now c)
  takes :
      {c : CaracalProber}
      → Reach net Sent c
      → (e : ForwardingInfoElement) (ch : Channel ForwardingInfoElement)
      → recv c.out_ch ≡ received e ch
      → Reach net Sent (record c { out_ch = ch })
  moves :
      {c : CaracalProber}
      → Reach net Sent c
      → (v : Option VantagePoint) → Reach net Sent (record c { vantage_point = v })
  closes : {c c' : CaracalProber} → Reach net Sent c → close_prober c ≡ some c' → Reach net Sent c'

module _ (net : Net) (Sent : ProbingDirective → Type 0) where
  record State (c : CaracalProber) : Type 0 where
    table : Inv net Sent c.pending
    output : All (Origin net Sent) c.out_ch.buffer

  emit-Origin :
      (o : Option ForwardingInfoElement) (ch : Channel ForwardingInfoElement) (done : Bool)
      → All (Origin net Sent) ch.buffer
      → OriginOf net Sent o
      → All (Origin net Sent) (emit done o ch).0.buffer
  unfolding emit
  emit-Origin none ch done h o = h
  emit-Origin (some e) ch true h o = h
  emit-Origin (some e) ch false h o = elim (send-Sends ch e) [
    | inl s ↦ rw (s, emit) (All-append (Origin net Sent) ch.buffer (e ∷ []) h (o, tt))
    | inr (inl s) ↦ rw (s, emit) h
    | inr (inr s) ↦ rw (s, emit) h
  ]

  handle_response-State :
      (now : ℕ) (done : Bool) (r : CaracalResponse) (c : CaracalProber)
      → State c
      → State (handle_response net now done r c).0
  unfolding handle_response
  handle_response-State now done r c s =
      let (kept, origin) = match_response_sound net Sent now c.vantage_point r c.pending s.table in
      record { table = kept; output = emit-Origin _ c.out_ch done s.output origin }

  send_directive-State :
      (now : ℕ) (w : Writes) (d : ProbingDirective) (c : CaracalProber)
      → Sent d
      → State c
      → State (send_directive net now w d c).0
  unfolding send_directive
  send_directive-State now w d c sent_d s =
      let fresh : IsMatched net Sent (directive_key net d) (fresh_probe now d) = record {
        was_sent = sent_d;
        own_key = refl;
        near = λ r e. cc;
        far = λ r e. cc;
      } in
      let table =
        insert-Inv net Sent (directive_key net d) (fresh_probe now d) c.pending fresh s.table in
      by_writes w table
    where
      by_writes :
          (w : Writes)
          → Inv net Sent (insert (directive_key net d) (fresh_probe now d) c.pending)
          → State (send_directive net now w d c).0
      by_writes both_written t = record { table = t; output = s.output }
      by_writes near_fails t = record { table = t; output = s.output }
      by_writes far_fails t = record { table = t; output = s.output }

  take-State :
      (e : ForwardingInfoElement) (ch : Channel ForwardingInfoElement) (c : CaracalProber)
      → recv c.out_ch ≡ received e ch
      → State c
      → State (record c { out_ch = ch })
  take-State e ch c h s = elim (recv-Recvs c.out_ch) [
    | inl (_, inl n) ↦ absurd (ground arith)
    | inl (_, inr n) ↦ absurd (ground arith)
    | inr (v, rest, b, n) ↦
        let same : ch.buffer ≡ rest = ground arith in
        let all = subst (All (Origin net Sent)) b s.output in
        record { table = s.table; output = rw same (all.1) }
  ]

  close_prober-State : (c c' : CaracalProber) → close_prober c ≡ some c' → State c → State c'
  unfolding close_prober close
  close_prober-State c c' h s =
      let table : c.pending ≡ c'.pending = ground arith in
      let output : c.out_ch.buffer ≡ c'.out_ch.buffer = ground arith in
      record {
        table = subst (Inv net Sent) table s.table;
        output = subst (All (Origin net Sent)) output s.output;
      }

Reach-State :
    (net : Net) (Sent : ProbingDirective → Type 0) {c : CaracalProber}
    → Reach net Sent c
    → State net Sent c
unfolding new_caracal_prober cleanup_expired_probes get make
Reach-State net Sent (start buffer timeout v) = record {
  table = record { unique = tt; matched = λ k p e. absurd (ground arith) };
  output = tt;
}
Reach-State net Sent (sends {c} h now w d s) =
    send_directive-State net Sent now w d c s (Reach-State net Sent h)
Reach-State net Sent (reads {c} h now done r) =
    handle_response-State net Sent now done r c (Reach-State net Sent h)
Reach-State net Sent (ticks {c} h now) =
    let s = Reach-State net Sent h in
    record {
      table = drop_expired-Inv net Sent now c.match_timeout c.pending s.table;
      output = s.output;
    }
Reach-State net Sent (takes {c} h e ch r) = take-State net Sent e ch c r (Reach-State net Sent h)
Reach-State net Sent (moves h v) =
    let s = Reach-State net Sent h in record { table = s.table; output = s.output }
Reach-State net Sent (closes {c} {c'} h e) =
    close_prober-State net Sent c c' e (Reach-State net Sent h)

-- Whatever happens to a prober, each element on its output was built from a directive that was sent
-- and from two answers with that directive's key, the first at its TTL and the second at the next.
pub Reach-Origin :
    (net : Net) (Sent : ProbingDirective → Type 0) {c : CaracalProber}
    → Reach net Sent c
    → All (Origin net Sent) c.out_ch.buffer
Reach-Origin net Sent h = (Reach-State net Sent h).output
