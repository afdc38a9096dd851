-- ===== src/Agent/MockProber.antt =====
-- internal/components/agent/mock_prober.go: the random element for a directive.
pub mod Bounds
pub mod Run
pub mod Rounds
use iprl_poc.Common.{
  ℕ, suc, ◌+◌, ◌*◌, List, [], ◌∷◌, Option, none, some, Bool, true, false, codes, if◌then◌else◌,
}
use iprl_poc.Common.Int.{ℤ, pos, ◌+ℤ◌, ◌-ℤ◌}
use iprl_poc.Common.Draws.{Rng, draw, ◌>>=◌}
use iprl_poc.Proto.{
  ProbingAgentSpec, ProbingDirective, ForwardingInfoElement, MplsInfo, MdaParameters, announced,
  observed,
}

-- The draws that are not of `Intn`, by their numbers: of `Uint64()`, whether that of `Float32()` is
-- below so many tenths, and the double 0.95 + 0.05 · x for that x of `Float64()`.
pub record Draws : Type 0 where
  pub rng : Rng
  pub uint64 : ℕ → ℕ
  pub below_tenths : ℕ → ℕ → Bool
  pub confidence : ℕ → ℕ

abbrev pub millisecond : ℕ
millisecond = 1000000

-- The loop that fills both reply addresses.
unfoldable pub reply_addresses : Rng → ℕ → Option (List ℕ × List ℕ × ℕ)
reply_addresses rng i = do
  (n₀, i₁) ← draw rng 256 i
  (f₀, i₂) ← draw rng 256 i₁
  (n₁, i₃) ← draw rng 256 i₂
  (f₁, i₄) ← draw rng 256 i₃
  (n₂, i₅) ← draw rng 256 i₄
  (f₂, i₆) ← draw rng 256 i₅
  (n₃, i₇) ← draw rng 256 i₆
  (f₃, i₈) ← draw rng 256 i₇
  some (n₀ ∷ n₁ ∷ n₂ ∷ n₃ ∷ [], f₀ ∷ f₁ ∷ f₂ ∷ f₃ ∷ [], i₈)

-- The label that is added in two cases of ten.
unfoldable pub mock_mpls : Draws → ℕ → Option (Option MplsInfo × ℕ)
mock_mpls draws i =
    if draws.below_tenths i 2
    then (do
      (k, i₁) ← draw draws.rng 1048560 (suc i)
      (c, i₂) ← draw draws.rng 8 i₁
      (t, i₃) ← draw draws.rng 255 i₂
      some (
        some (record { labels = record { label = 16 + k; tc = c; s = true; ttl = 1 + t } ∷ [] }),
        i₃,
      ))
    else some (none, suc i)

-- The parameters that are added in three cases of ten.
unfoldable pub mock_mda : Draws → ℕ → Option (Option MdaParameters × ℕ)
mock_mda draws i =
    if draws.below_tenths i 3
    then (do
      (k, i₁) ← draw draws.rng 16 (suc i)
      some (
        some (record {
          flow_count = pos (1 + k);
          confidence = draws.confidence i₁;
          max_retries = pos 3;
          algo_version = codes "mda-v1";
        }),
        suc i₁,
      ))
    else some (none, suc i)

-- The element that the draws make.
abbrev pub mock_element :
    (now : ℕ) (spec : ProbingAgentSpec) (d : ProbingDirective) (flow r : ℕ) (near far : List ℕ)
    (h n f p k : ℕ) (mpls : Option MplsInfo) (mda : Option MdaParameters)
    → ForwardingInfoElement
mock_element now spec d flow r near far h n f p k mpls mda =
    let sent : ℤ = pos now -ℤ pos ((10 + r) * millisecond) in
    let near_time : ℕ = (5 + n) * millisecond in
    let far_time : ℕ = near_time + (5 + f) * millisecond in
    record {
      vantage_point = spec.vantage_point;
      flow_id = flow;
      near_ttl = 1 + h;
      near_reply_address = near;
      far_reply_address = far;
      destination_addr = d.destination_address;
      source_addr = [];
      mpls = mpls;
      packet_size = pos (64 + p);
      near_rtt = some (record { sent_at = some sent; received_at = some (sent +ℤ pos near_time) });
      far_rtt = some (record { sent_at = some sent; received_at = some (sent +ℤ pos far_time) });
      packets_sent = 1 + k;
      packets_received = 1;
      mda = mda;
      change_type = announced;
      justification_type = observed;
      construction_timestamp = some (pos now);
    }

-- None is a panic: of a draw from nothing, or of a nil spec.
unfoldable pub generate_element :
    Draws → ℕ → Option ProbingAgentSpec → ProbingDirective → ℕ → Option (ForwardingInfoElement × ℕ)
generate_element draws now spec d i₀ = do
  (r, i₁) ← draw draws.rng 90 i₀
  (near, far, i₂) ← reply_addresses draws.rng i₁
  (h, i₃) ← draw draws.rng d.near_ttl i₂
  (n, i₄) ← draw draws.rng 45 i₃
  (f, i₅) ← draw draws.rng 20 i₄
  agent ← spec
  (p, i₆) ← draw draws.rng 64 (suc i₅)
  (k, i₇) ← draw draws.rng 3 i₆
  (mpls, i₈) ← mock_mpls draws i₇
  (mda, i₉) ← mock_mda draws i₈
  some (mock_element now agent d (draws.uint64 i₅) r near far h n f p k mpls mda, i₉)
