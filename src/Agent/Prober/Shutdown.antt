-- ===== src/Agent/Prober/Shutdown.antt =====
-- Answers that arrive around Close, internal/components/agent/caracal_prober.go.
use iprl_poc.Common.{ℕ, some, true, false, ◌≡◌, refl, arith}
use iprl_poc.Common.Channel.{Channel, send, close}
use iprl_poc.Proto.{ForwardingInfoElement}
use iprl_poc.Agent.Caracal.{CaracalResponse}
use iprl_poc.Agent.Prober.{
  Net, CaracalProber, match_response, emit, given_up, emission_panics, handle_response,
  close_prober,
}

closed_out :
    (c c' : CaracalProber)
    → c.closed ≡ false
    → close_prober c ≡ some c'
    → (c'.out_ch.is_closed ≡ true) × (c'.pending ≡ c.pending) × (c'.vantage_point ≡ c.vantage_point)
unfolding close_prober close
closed_out c c' o e = ground arith

emit-closed :
    (e : ForwardingInfoElement) (ch : Channel ForwardingInfoElement)
    → ch.is_closed ≡ true
    → (emit false (some e) ch).1 ≡ emission_panics
unfolding emit send
emit-closed e ch shut = ground arith

-- When a prober has been closed, the answer that completes a pair makes its reader panic if the
-- select takes the send, which a closed channel makes ready; it gives up if a Done case is taken.
pub close_prober-breaks_emit :
    (net : Net) (now : ℕ) (r : CaracalResponse) (c c' : CaracalProber) (e : ForwardingInfoElement)
    → c.closed ≡ false
    → close_prober c ≡ some c'
    → (match_response net now c.vantage_point r c.pending).1 ≡ some e
    → ((handle_response net now false r c').1 ≡ emission_panics)
      × ((handle_response net now true r c').1 ≡ given_up)
unfolding handle_response
close_prober-breaks_emit net now r c c' e o shut done =
    let (is_shut, kept, same) = closed_out c c' o shut in
    rw (kept, same, done) (emit-closed e c'.out_ch is_shut, unfold emit in refl)
