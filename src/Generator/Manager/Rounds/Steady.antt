-- ===== src/Generator/Manager/Rounds/Steady.antt =====
-- Rounds of `streamDirectives` of internal/components/generator/manager.go in which the status stays
-- as it is and every Send works.
use iprl_poc.Common.{
  ℕ, zero, suc, ◌*◌, ◌<◌, ◌^◌, List, [], ◌∷◌, some, true, false, ◌≡◌, refl, ap, arith, length, All,
}
use iprl_poc.Common.Int.{pos}
use iprl_poc.Common.Pacing.{div_second-wrap}
use iprl_poc.Proto.{ProbingDirectiveGeneratorStatus}
use iprl_poc.Generator.Manager.{can_stream, send_interval}
use iprl_poc.Generator.Manager.Stream.{product_pos, product_fits}
use iprl_poc.Generator.Manager.Rounds.{StreamRound}
use iprl_poc.Generator.Manager.Rounds.Drain.{IsStreaming}

abbrev pub steady_rounds : ProbingDirectiveGeneratorStatus → ℕ → List StreamRound
steady_rounds s zero = []
steady_rounds s (suc k) =
    record { top = some s; after = some s; is_done = false; sends = true } ∷ steady_rounds s k

pub length-steady_rounds :
    (s : ProbingDirectiveGeneratorStatus) (k : ℕ) → length (steady_rounds s k) ≡ k
length-steady_rounds s zero = refl
length-steady_rounds s (suc k) = ap (λ n. suc n) (length-steady_rounds s k)

-- With a rate and agents, each of them pulls and sends.
pub steady_rounds-IsStreaming :
    (s : ProbingDirectiveGeneratorStatus) (k : ℕ)
    → 0 < s.probe_generation_rate_per_second_per_agent
    → s.probe_generation_rate_per_second_per_agent < 2 ^ 32
    → 0 < length s.agent_specs
    → length s.agent_specs < 2 ^ 31
    → All IsStreaming (steady_rounds s k)
unfolding can_stream send_interval
steady_rounds-IsStreaming s zero rated fits some_agent few = tt
steady_rounds-IsStreaming s (suc k) rated fits some_agent few =
    let rate = s.probe_generation_rate_per_second_per_agent in
    let agents = length s.agent_specs in
    let (q, paced, _) =
      div_second-wrap (rate * agents) (product_pos rate agents rated some_agent)
        (product_fits rate agents fits few) in
    (
      record {
        status = s;
        pause = pos q;
        has_status = refl;
        allows = ground arith;
        paced = paced;
        goes = refl;
        works = refl;
      },
      steady_rounds-IsStreaming s k rated fits some_agent few,
    )
