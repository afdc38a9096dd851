-- ===== src/Agent/Prober/RoundTrip.antt =====
-- A directive through the whole of internal/components/agent/caracal_prober.go: registered and sent,
-- answered on the tool's output, and emitted.
use iprl_poc.Common.{
  ℕ, ◌<◌, List, [], ◌∷◌, ◌++◌, none, some, Bool, true, false, ◌≡◌, refl, arith, Text, text_eq, ite,
  map, length, ltb, u32_mod,
}
use iprl_poc.Common.GoMap.{get}
use iprl_poc.Common.Channel.{send_room}
use iprl_poc.Proto.{ProbingDirective, ForwardingInfoElement}
use iprl_poc.Agent.Caracal.{CaracalResponse}
use iprl_poc.Agent.Caracal.RoundTrip.{IsPrintable}
use iprl_poc.Agent.Prober.{
  Net, CaracalProber, Writes, far_ttl, directive_key, send_directive, match_response,
  build_forwarding_info_element, nothing_to_emit, emitted, emit, handle_response,
}
use iprl_poc.Agent.Prober.Matching.{Answers, ordered, Answers-emit}
use iprl_poc.Agent.Prober.Reader.{
  Printed, AllPrintable, answer, comment, output_line, handle_all, reader_scans, after_emission,
  read_caracal_output, read_caracal_output-handle_all,
}

-- An answer that completes nothing, and one that completes a pair while there is room.
handle_response_first :
    (net : Net) (now : ℕ) (r : CaracalResponse) (c : CaracalProber)
    → (match_response net now c.vantage_point r c.pending).1 ≡ none
    → handle_response net now false r c ≡ (
      record c { pending = (match_response net now c.vantage_point r c.pending).0 },
      nothing_to_emit,
    )
unfolding handle_response emit
handle_response_first net now r c e = rw e refl

handle_response_last :
    (net : Net) (now : ℕ) (r : CaracalResponse) (c : CaracalProber) (x : ForwardingInfoElement)
    → (match_response net now c.vantage_point r c.pending).1 ≡ some x
    → c.out_ch.is_closed ≡ false
    → ltb (length c.out_ch.buffer) c.out_ch.capacity ≡ true
    → handle_response net now false r c ≡ (
      record c {
        pending = (match_response net now c.vantage_point r c.pending).0;
        out_ch = record c.out_ch { buffer = c.out_ch.buffer ++ x ∷ [] };
      },
      emitted,
    )
unfolding handle_response emit
handle_response_last net now r c x e o room = rw e (rw (send_room c.out_ch x o room, emit) refl)

-- What the tool prints for two answers, with a comment between them.
abbrev pub printed_answers : Bool → ℕ → ℕ → Text → CaracalResponse × CaracalResponse → List Printed
printed_answers mapped t₁ t₂ t (a, b) =
    answer t₁ mapped false a ∷ comment t₂ t ∷ answer t₂ mapped false b ∷ []

handle_all-two :
    (mapped : Bool) (net : Net) (t₁ t₂ : ℕ) (t : Text) (a b : CaracalResponse) (c : CaracalProber)
    (x : ForwardingInfoElement)
    → let first = match_response net t₁ c.vantage_point a c.pending in
      let last = match_response net t₂ c.vantage_point b first.0 in
      first.1 ≡ none
      → last.1 ≡ some x
      → c.out_ch.is_closed ≡ false
      → ltb (length c.out_ch.buffer) c.out_ch.capacity ≡ true
      → handle_all net (printed_answers mapped t₁ t₂ t (a, b)) c ≡ (
        record c {
          pending = last.0;
          out_ch = record c.out_ch { buffer = c.out_ch.buffer ++ x ∷ [] };
        },
        reader_scans,
      )
unfolding after_emission
handle_all-two mapped net t₁ t₂ t a b c x first last o room =
    let one = handle_response_first net t₁ a c first in
    let middle : CaracalProber = record c {
      pending = (match_response net t₁ c.vantage_point a c.pending).0;
    } in
    let two = handle_response_last net t₂ b middle x last o room in rw one (rw two refl)

send_directive-rest :
    (net : Net) (t₀ : ℕ) (w : Writes) (d : ProbingDirective) (c : CaracalProber)
    → let sent = (send_directive net t₀ w d c).0 in
      (sent.vantage_point ≡ c.vantage_point) × (sent.out_ch ≡ c.out_ch)
unfolding send_directive
send_directive-rest net t₀ w d c = (ground arith, ground arith)

ordered-AllPrintable :
    (near_first mapped : Bool) (near far : CaracalResponse) (t₁ t₂ : ℕ) (t : Text)
    → IsPrintable near
    → IsPrintable far
    → AllPrintable (printed_answers mapped t₁ t₂ t (ordered near_first near far))
ordered-AllPrintable true mapped near far t₁ t₂ t n f = (n, (f, tt))
ordered-AllPrintable false mapped near far t₁ t₂ t n f = (f, (n, tt))

-- A directive is sent; then the tool prints its two answers, in either order, their addresses with or
-- without the prefix ::ffff:, with a comment between them; and the output has room. Reading these lines puts exactly one element on the output, the one
-- built from the directive and the two answers; the probe is gone, and no other probe is touched.
pub probe_round_trip :
    (near_first mapped : Bool) (net : Net) (d : ProbingDirective) (c : CaracalProber) (w : Writes)
    (near far : CaracalResponse) (t₀ t₁ t₂ : ℕ) (t : Text)
    → d.near_ttl < u32_mod
    → Answers net d d.near_ttl near
    → Answers net d (far_ttl d) far
    → IsPrintable near
    → IsPrintable far
    → c.out_ch.is_closed ≡ false
    → ltb (length c.out_ch.buffer) c.out_ch.capacity ≡ true
    → let lines = map output_line (printed_answers mapped t₁ t₂ t (ordered near_first near far)) in
      let element = build_forwarding_info_element net t₂ c.vantage_point d near far in
      let (c', end) = read_caracal_output net lines (send_directive net t₀ w d c).0 in
      (end ≡ reader_scans)
      × (c'.out_ch ≡ record c.out_ch { buffer = c.out_ch.buffer ++ element ∷ [] })
      × ((k : Text)
          → get k c'.pending ≡ ite (text_eq (directive_key net d) k) none (get k c.pending))
probe_round_trip near_first mapped net d c w near far t₀ t₁ t₂ t h n f pn pf o room =
    let sent : CaracalProber = (send_directive net t₀ w d c).0 in
    let (vantage, out) = send_directive-rest net t₀ w d c in
    let (first, last, gone) =
      Answers-emit near_first net d c w near far t₀ t₁ t₂ sent.vantage_point h n f in
    let (a, b) = ordered near_first near far in
    let printable = ordered-AllPrintable near_first mapped near far t₁ t₂ t pn pf in
    let read =
      read_caracal_output-handle_all net (printed_answers mapped t₁ t₂ t (a, b)) sent printable in
    let element = build_forwarding_info_element net t₂ sent.vantage_point d near far in
    let handled =
      handle_all-two mapped net t₁ t₂ t a b sent element first last (rw out o) (rw out room) in
    rw (read, handled) (refl, rw (out, vantage) refl, gone)
