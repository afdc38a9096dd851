-- ===== src/Commands/Boot.antt =====
-- What the main functions of cmd/agent and cmd/generator make before they call Run. `limit` is the
-- largest buffer that make takes, `source` is `rand.New(rand.NewSource(...))`.
use iprl_poc.Common.{
  ℕ, ◌≤◌, ◌^◌, ◌<◌, List, Option, none, some, ◌≡◌, refl, Text, arith, leb, if◌then◌else◌,
}
use iprl_poc.Common.Int.{ℤ, pos, negsuc, wrap64, wrap64-pos}
use iprl_poc.Common.Draws.{Rng}
use iprl_poc.Agent.Manager.{AgentManager, new_agent_manager}
use iprl_poc.Agent.MockProber.{Draws}
use iprl_poc.Agent.MockProber.Run.{MockProber, new_mock_prober}
use iprl_poc.Generator.Manager.{GeneratorManager, new_generator_manager}
use iprl_poc.Generator.Mock.Run.{MockDirectiveGenerator, new_mock_directive_generator}
use iprl_poc.Commands.{AgentFlags, GeneratorFlags, agent_spec_of, generator_spec_of}

-- `make(chan T, int(n))` for a flag of type uint: none is its panic, for an int below 0, which `n` is
-- from 2 ^ 63 on, or above the limit.
unfoldable pub buffer_size : ℕ → ℕ → Option ℕ
buffer_size limit n = elim (wrap64 (pos n)) [
  | pos k ↦ if leb k limit then some k else none
  | negsuc k ↦ none
]

pub record AgentBoot : Type 0 where
  pub manager : AgentManager
  pub prober : MockProber
  pub draws : Draws

-- None is the panic of make.
unfoldable pub agent_boot : ℕ → (ℤ → Draws) → (Text → List ℕ) → Text → AgentFlags → Option AgentBoot
unfolding buffer_size
agent_boot limit source to4 version f = elim (buffer_size limit f.mock_buffer) [
  | none ↦ none
  | some buffer ↦ some (record {
    manager = new_agent_manager (agent_spec_of to4 version f);
    prober = new_mock_prober buffer;
    draws = source (wrap64 (pos f.seed));
  })
]

pub record GeneratorBoot : Type 0 where
  pub manager : GeneratorManager
  pub generator : MockDirectiveGenerator
  pub rng : Rng

unfoldable pub generator_boot : ℕ → (ℤ → Rng) → Text → GeneratorFlags → Option GeneratorBoot
unfolding buffer_size
generator_boot limit source version f = elim (buffer_size limit f.mock_buffer) [
  | none ↦ none
  | some buffer ↦ some (record {
    manager = new_generator_manager (generator_spec_of version f);
    generator = new_mock_directive_generator buffer;
    rng = source (wrap64 (pos f.seed));
  })
]

-- A buffer that fits in an int and in the limit is the channel's.
pub buffer_size-fits : (limit n : ℕ) → n ≤ limit → limit < 2 ^ 63 → buffer_size limit n ≡ some n
unfolding buffer_size
buffer_size-fits limit n h l = rw (wrap64-pos n (omega arith), buffer_size) (ground arith)

-- Then the programs come to their Run.
pub agent_boot-some :
    (limit : ℕ) (source : ℤ → Draws) (to4 : Text → List ℕ) (version : Text) (f : AgentFlags)
    → f.mock_buffer ≤ limit
    → limit < 2 ^ 63
    → agent_boot limit source to4 version f
      ≡ some (record {
        manager = new_agent_manager (agent_spec_of to4 version f);
        prober = new_mock_prober f.mock_buffer;
        draws = source (wrap64 (pos f.seed));
      })
unfolding agent_boot
agent_boot-some limit source to4 version f h l =
    rw (buffer_size-fits limit f.mock_buffer h l, agent_boot) refl

pub generator_boot-some :
    (limit : ℕ) (source : ℤ → Rng) (version : Text) (f : GeneratorFlags)
    → f.mock_buffer ≤ limit
    → limit < 2 ^ 63
    → generator_boot limit source version f
      ≡ some (record {
        manager = new_generator_manager (generator_spec_of version f);
        generator = new_mock_directive_generator f.mock_buffer;
        rng = source (wrap64 (pos f.seed));
      })
unfolding generator_boot
generator_boot-some limit source version f h l =
    rw (buffer_size-fits limit f.mock_buffer h l, generator_boot) refl
