-- ===== src/Agent/MockProber/Bounds.antt =====
-- What elements internal/components/agent/mock_prober.go makes.
use iprl_poc.Common.{
  ℕ, suc, ◌+◌, ◌*◌, ◌≤◌, ◌<◌, ◌^◌, List, [], ◌∷◌, Option, none, some, true, ◌≡◌, refl, inl, inr,
  arith, All, Bool-cases, codes,
}
use iprl_poc.Common.Int.{ℤ, pos, ◌+ℤ◌, ◌-ℤ◌}
use iprl_poc.Common.Draws.{Rng, draw-total, IsAddress}
use iprl_poc.Proto.{
  ProbingAgentSpec, ProbingDirective, ForwardingInfoElement, MplsLabel, MplsInfo, MdaParameters,
}
use iprl_poc.Agent.MockProber.{
  Draws, mock_element, millisecond, reply_addresses, mock_mpls, mock_mda, generate_element,
}

-- A label of 20 bits that is not reserved, a class of 3 bits, and a TTL of 8 bits that is not 0.
abbrev pub IsLabel : MplsLabel → Type 0
IsLabel l = (16 ≤ l.label) × (l.label < 2 ^ 20) × (l.tc < 2 ^ 3) × (1 ≤ l.ttl) × (l.ttl < 2 ^ 8)

abbrev pub HasLabels : Option MplsInfo → Type 0
HasLabels none = Unit
HasLabels (some info) = All IsLabel info.labels

abbrev pub HasFlows : Option MdaParameters → Type 0
HasFlows none = Unit
HasFlows (some mda) =
    ((n : ℕ) × (mda.flow_count ≡ pos n) × (1 ≤ n) × (n ≤ 16))
    × (mda.max_retries ≡ pos 3)
    × (mda.algo_version ≡ codes "mda-v1")

-- An element for the directive `d`.
pub record IsPlausible (d : ProbingDirective) (spec : ProbingAgentSpec) (now : ℕ)
    (e : ForwardingInfoElement) : Type 0 where
  pub near : ℕ
  pub far : ℕ
  pub size : ℕ
  pub sent_at : ℤ
  pub place : e.vantage_point ≡ spec.vantage_point
  pub destination : e.destination_addr ≡ d.destination_address
  pub near_ttl : (1 ≤ e.near_ttl) × (e.near_ttl ≤ d.near_ttl)
  pub near_address : IsAddress e.near_reply_address
  pub far_address : IsAddress e.far_reply_address
  pub packet_size : (e.packet_size ≡ pos size) × (64 ≤ size) × (size < 128)
  pub near_rtt :
      e.near_rtt
      ≡ some (record { sent_at = some sent_at; received_at = some (sent_at +ℤ pos near) })
  pub far_rtt :
      e.far_rtt ≡ some (record { sent_at = some sent_at; received_at = some (sent_at +ℤ pos far) })
  pub delay : ℕ
  pub sent_before : sent_at ≡ pos now -ℤ pos delay
  pub delayed : (10 * millisecond ≤ delay) × (delay < 100 * millisecond)
  pub near_time : (5 * millisecond ≤ near) × (near < 50 * millisecond)
  pub far_time : (near + 5 * millisecond ≤ far) × (far < near + 25 * millisecond)
  pub packets : (e.packets_received ≡ 1) × (1 ≤ e.packets_sent) × (e.packets_sent ≤ 3)
  pub labels : HasLabels e.mpls
  pub flows : HasFlows e.mda
  pub made_at : e.construction_timestamp ≡ some (pos now)

reply_addresses-total :
    (rng : Rng) (i : ℕ)
    → (near : List ℕ) × (far : List ℕ) × (j : ℕ) × (reply_addresses rng i ≡ some (near, far, j))
      × IsAddress near
      × IsAddress far
reply_addresses-total rng i =
    let byte = λ (j : ℕ). draw-total rng 256 j (omega arith) in
    let i₁ : ℕ = suc i in
    let i₂ : ℕ = suc i₁ in
    let i₃ : ℕ = suc i₂ in
    let i₄ : ℕ = suc i₃ in
    let i₅ : ℕ = suc i₄ in
    let i₆ : ℕ = suc i₅ in
    let i₇ : ℕ = suc i₆ in
    let i₈ : ℕ = suc i₇ in
    let (n₀, e₀, b₀) = byte i in
    let (f₀, e₁, b₁) = byte i₁ in
    let (n₁, e₂, b₂) = byte i₂ in
    let (f₁, e₃, b₃) = byte i₃ in
    let (n₂, e₄, b₄) = byte i₄ in
    let (f₂, e₅, b₅) = byte i₅ in
    let (n₃, e₆, b₆) = byte i₆ in
    let (f₃, e₇, b₇) = byte i₇ in
    (
      n₀ ∷ n₁ ∷ n₂ ∷ n₃ ∷ [],
      f₀ ∷ f₁ ∷ f₂ ∷ f₃ ∷ [],
      i₈,
      unfold reply_addresses in rw e₀ (rw e₁ (rw e₂ (rw e₃ (rw e₄ (rw e₅ (rw e₆ (rw e₇))))))),
      (refl, (b₀, (b₂, (b₄, (b₆, tt))))),
      (refl, (b₁, (b₃, (b₅, (b₇, tt))))),
    )

mock_mpls-total :
    (draws : Draws) (i : ℕ)
    → (o : Option MplsInfo) × (j : ℕ) × (mock_mpls draws i ≡ some (o, j)) × HasLabels o
mock_mpls-total draws i = elim (Bool-cases (draws.below_tenths i 2)) [
  | inl added ↦
      let (k, e₀, b₀) = draw-total draws.rng 1048560 (suc i) (omega arith) in
      let (c, e₁, b₁) = draw-total draws.rng 8 (suc (suc i)) (omega arith) in
      let (t, e₂, b₂) = draw-total draws.rng 255 (suc (suc (suc i))) (omega arith) in
      (
        some (record { labels = record { label = 16 + k; tc = c; s = true; ttl = 1 + t } ∷ [] }),
        suc (suc (suc (suc i))),
        unfold mock_mpls in rw added (rw e₀ (rw e₁ (rw e₂))),
        ((omega arith, omega arith, omega arith, omega arith, omega arith), tt),
      )
  | inr plain ↦ (none, suc i, unfold mock_mpls in rw plain, tt)
]

mock_mda-total :
    (draws : Draws) (i : ℕ)
    → (o : Option MdaParameters) × (j : ℕ) × (mock_mda draws i ≡ some (o, j)) × HasFlows o
mock_mda-total draws i = elim (Bool-cases (draws.below_tenths i 3)) [
  | inl added ↦
      let (k, e, b) = draw-total draws.rng 16 (suc i) (omega arith) in
      (
        some (record {
          flow_count = pos (1 + k);
          confidence = draws.confidence (suc (suc i));
          max_retries = pos 3;
          algo_version = codes "mda-v1";
        }),
        suc (suc (suc i)),
        unfold mock_mda in rw added (rw e),
        ((1 + k, refl, omega arith, omega arith), refl, refl),
      )
  | inr plain ↦ (none, suc i, unfold mock_mda in rw plain, tt)
]

-- For a directive whose TTL is not 0, an agent with a spec makes an element: the draws do not panic.
-- It has the directive's destination and the agent's vantage point, a TTL up to the directive's,
-- IPv4 replies, both probes sent from 10 to 99 ms before now, a near answer after 5 to 49 ms and a far
-- one 5 to 24 ms behind it, one packet received of at most three sent, and labels and flow counts in
-- their ranges. The flow id and the confidence are as drawn, with no range claimed.
pub generate_element-IsPlausible :
    (draws : Draws) (now : ℕ) (spec : ProbingAgentSpec) (d : ProbingDirective) (i : ℕ)
    → 0 < d.near_ttl
    → (e : ForwardingInfoElement) × (j : ℕ) × (generate_element draws now (some spec) d i
        ≡ some (e, j))
      × IsPlausible d spec now e
unfolding generate_element
generate_element-IsPlausible draws now spec d i h =
    let (r, e₀, b₀) = draw-total draws.rng 90 i (omega arith) in
    let (near, far, i₁, e₁, is_near, is_far) = reply_addresses-total draws.rng (suc i) in
    let (t, e₂, b₂) = draw-total draws.rng d.near_ttl i₁ h in
    let (n, e₃, b₃) = draw-total draws.rng 45 (suc i₁) (omega arith) in
    let (f, e₄, b₄) = draw-total draws.rng 20 (suc (suc i₁)) (omega arith) in
    let i₂ : ℕ = suc (suc (suc (suc i₁))) in
    let (p, e₅, b₅) = draw-total draws.rng 64 i₂ (omega arith) in
    let (k, e₆, b₆) = draw-total draws.rng 3 (suc i₂) (omega arith) in
    let (mpls, i₃, e₇, has_labels) = mock_mpls-total draws (suc (suc i₂)) in
    let (mda, i₄, e₈, has_flows) = mock_mda-total draws i₃ in
    (
      mock_element now spec d (draws.uint64 (suc (suc (suc i₁)))) r near far t n f p k mpls mda,
      i₄,
      rw e₀ (rw e₁ (rw e₂ (rw e₃ (rw e₄ (rw e₅ (rw e₆ (rw e₇ (rw e₈)))))))),
      record {
        near = (5 + n) * millisecond;
        far = (5 + n) * millisecond + (5 + f) * millisecond;
        size = 64 + p;
        sent_at = pos now -ℤ pos ((10 + r) * millisecond);
        place = refl;
        destination = refl;
        near_ttl = (omega arith, omega arith);
        near_address = is_near;
        far_address = is_far;
        packet_size = (refl, omega arith, omega arith);
        near_rtt = refl;
        far_rtt = refl;
        delay = (10 + r) * millisecond;
        sent_before = refl;
        delayed = (omega arith, omega arith);
        near_time = (omega arith, omega arith);
        far_time = (omega arith, omega arith);
        packets = (refl, omega arith, omega arith);
        labels = has_labels;
        flows = has_flows;
        made_at = refl;
      },
    )
