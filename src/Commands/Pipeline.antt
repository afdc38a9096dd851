-- ===== src/Commands/Pipeline.antt =====
-- The programs under cmd together: a directive of the generator that its flags set up, on an agent
-- that its flags set up, and the pace that the orchestrator's flags set.
use iprl_poc.Common.{
  ℕ, ◌%◌, ◌<◌, ◌≤◌, ◌^◌, List, [], ◌∷◌, none, some, ◌≡◌, ◌≢◌, inl, inr, arith, Text, length, map,
  Mem, u32_mod, ◌↔◌,
}
use iprl_poc.Common.Draws.{Rng}
use mathlib.Core.List.{mem-cons, not-mem-nil}
use mathlib.Core.Logic.Or
use iprl_poc.Proto.{
  ProbingAgentSpec, ProbingDirectiveGeneratorStatus, ProbingDirective, ForwardingInfoElement,
}
use iprl_poc.Agent.MockProber.{Draws, generate_element}
use iprl_poc.Agent.MockProber.Bounds.{IsPlausible, generate_element-IsPlausible}
use iprl_poc.Agent.Manager.{AgentManager, element_interval}
use iprl_poc.Agent.Manager.Pacing.{joined, join_agent-element_interval}
use iprl_poc.Generator.Mock.{generate_directive, directive}
use iprl_poc.Generator.Mock.Bounds.{TtlRange, generate_directive-Fits}
use iprl_poc.Orchestrator.Manager.{new_orchestrator_manager}
use iprl_poc.Commands.{
  AgentFlags, GeneratorFlags, OrchestratorFlags, agent_spec_of, generator_spec_of,
  orchestrator_spec_of,
}

pub generator_spec_of-TtlRange :
    (version : Text) (f : GeneratorFlags)
    → 0 < f.min_ttl
    → f.min_ttl ≤ f.max_ttl
    → f.max_ttl < u32_mod
    → TtlRange (generator_spec_of version f)
unfolding generator_spec_of
generator_spec_of-TtlRange version f h k l = record {
  min_fits = omega arith;
  max_fits = omega arith;
  not_all = omega arith;
}

pub agent_spec_of-placed :
    (to4 : Text → List ℕ) (version : Text) (fs : List AgentFlags) (a : ProbingAgentSpec)
    → Mem a (map (agent_spec_of to4 version) fs)
    → a.vantage_point ≢ none
unfolding agent_spec_of
agent_spec_of-placed to4 version [] a m = absurd (not-mem-nil m)
agent_spec_of-placed to4 version (f ∷ fs) a m =
    let is_prop : IsProp (a.vantage_point ≢ none) = hlevel in
    Or.elim is_prop (mem-cons.0 m) (λ e. rw e (λ n. cc))
      (λ later. agent_spec_of-placed to4 version fs a later)

-- A generator that is started with 0 < -min-ttl ≤ -max-ttl < 2 ^ 32, and whose status lists agents
-- started by the agent program, makes a directive with a TTL between the two flags; and the mock
-- prober of any agent started by that program answers it with an element that is plausible for it.
pub flags-IsPlausible :
    (to4 : Text → List ℕ) (version : Text) (f : GeneratorFlags) (a b : AgentFlags)
    (fs : List AgentFlags) (status : ProbingDirectiveGeneratorStatus) (rng : Rng) (draws : Draws)
    (now i j : ℕ)
    → 0 < f.min_ttl
    → f.min_ttl ≤ f.max_ttl
    → f.max_ttl < u32_mod
    → status.agent_specs ≡ map (agent_spec_of to4 version) (a ∷ fs)
    → (d : ProbingDirective) × (i' : ℕ) × (generate_directive rng
          (generator_spec_of version f)
          (some status)
          i
        ≡ directive d i')
      × (f.min_ttl ≤ d.near_ttl)
      × (d.near_ttl ≤ f.max_ttl)
      × (e : ForwardingInfoElement) × (j' : ℕ) × (generate_element draws now
            (some (agent_spec_of to4 version b))
            d
            j
          ≡ some (e, j'))
      × IsPlausible d (agent_spec_of to4 version b) now e
unfolding generator_spec_of
flags-IsPlausible to4 version f a b fs status rng draws now i j h k l listed =
    let spec = generator_spec_of version f in
    let placed : (x : ProbingAgentSpec) → Mem x status.agent_specs → x.vantage_point ≢ none =
      rw listed (agent_spec_of-placed to4 version (a ∷ fs)) in
    let some_agent : 0 < length status.agent_specs = rw listed (omega arith) in
    let (d, i', made, fits) =
      generate_directive-Fits rng spec status i some_agent
        (generator_spec_of-TtlRange version f h k l) placed in
    let (low, high) = fits.ttl in
    let from : f.min_ttl ≤ d.near_ttl = omega arith in
    let to : d.near_ttl ≤ f.max_ttl = ground arith in
    let (e, j', answered, plausible) =
      generate_element-IsPlausible draws now (agent_spec_of to4 version b) d j (omega arith) in
    (d, i', made, from, to, e, j', answered, plausible)

-- With the orchestrator that its flags set up, an agent that has joined panics at its first element
-- exactly if -rate is a multiple of 2 ^ 32, like 0.
pub rate-element_interval :
    (version : Text) (f : OrchestratorFlags) (id : Text) (spec : ProbingAgentSpec)
    (a : AgentManager)
    → let m = new_orchestrator_manager (orchestrator_spec_of version f) in
      (element_interval (joined id spec a m).current_status ≡ none) ↔ (f.rate % 2 ^ 32 ≡ 0)
unfolding new_orchestrator_manager orchestrator_spec_of
rate-element_interval version f id spec a =
    let m = new_orchestrator_manager (orchestrator_spec_of version f) in
    elim (join_agent-element_interval id spec a m) [
      | inl (z, p) ↦ (λ _. z, λ _. p)
      | inr (q, some_rate, p, paces) ↦ (λ n. absurd (cc), λ z. absurd (omega arith))
    ]
