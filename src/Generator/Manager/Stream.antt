-- ===== src/Generator/Manager/Stream.antt =====
-- The pace of a generator's stream, internal/components/generator/manager.go.
use iprl_poc.Common.{
  ℕ, ◌*◌, ◌<◌, ◌^◌, [], some, true, ◌≡◌, refl, ◌⊎◌, inl, inr, arith, length, Bool-cases,
}
use iprl_poc.Common.Int.{pos, wrap64}
use iprl_poc.Common.Pacing.{Paces, div_second, div_second-wrap}
use iprl_poc.Proto.{ProbingDirectiveGeneratorStatus, ProbingDirective}
use iprl_poc.Generator.Manager.{
  can_stream, send_interval, pulled, retry_later, sends_after, turn_panics, stream_turn,
}

pub product_pos : (a b : ℕ) → 0 < a → 0 < b → 0 < a * b
product_pos a b h k = grind arith

pub product_fits : (a b : ℕ) → a < 2 ^ 32 → b < 2 ^ 31 → a * b < 2 ^ 63
product_fits a b h k = grind arith

-- While the status stays as it is, a round without agents or at rate 0 waits, and any other sends
-- the directive it pulls after the longest pause at which rate times agents sends fit in a second.
-- The rate is a uint32 and there are fewer than 2 ^ 31 agents.
pub stream_turn-Paces :
    (s : ProbingDirectiveGeneratorStatus) (d : ProbingDirective)
    → s.probe_generation_rate_per_second_per_agent < 2 ^ 32
    → length s.agent_specs < 2 ^ 31
    → let turn = stream_turn (some s) (some s) (pulled d) in
      let rate = s.probe_generation_rate_per_second_per_agent * length s.agent_specs in
      ((rate ≡ 0) × (turn ≡ retry_later))
      ⊎ ((q : ℕ) × (0 < rate) × (turn ≡ sends_after (pos q) d) × Paces rate q)
unfolding stream_turn send_interval can_stream
stream_turn-Paces s d h k = elim (Bool-cases (can_stream (some s))) [
  | inl go ↦
      let n = s.probe_generation_rate_per_second_per_agent * length s.agent_specs in
      let positive : 0 < n =
        product_pos s.probe_generation_rate_per_second_per_agent (length s.agent_specs)
          (ground arith) (ground arith) in
      let fits = product_fits _ (length s.agent_specs) h k in
      let (q, e, p) = div_second-wrap n positive fits in inr (q, positive, rw go (rw e), p)
  | inr stop ↦ inl (grind arith, rw stop)
]

-- If the last agent leaves between the two reads of the status, the round panics: the guard at the
-- top was passed, and the division is by zero.
pub stream_turn_panics :
    (s s' : ProbingDirectiveGeneratorStatus) (d : ProbingDirective)
    → can_stream (some s) ≡ true
    → s'.agent_specs ≡ []
    → stream_turn (some s) (some s') (pulled d) ≡ turn_panics
unfolding stream_turn send_interval div_second wrap64
stream_turn_panics s s' d go gone =
    let rate = s.probe_generation_rate_per_second_per_agent in
    let zero_agents : rate * 0 ≡ 0 = omega arith in rw (go, gone, zero_agents) refl
