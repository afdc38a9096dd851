-- ===== src/Agent/Prober/Run.antt =====
-- Run of internal/components/agent/caracal_prober.go: the loop over the input channel, beside the
-- reader of the tool's output and the cleanup.
use iprl_poc.Common.{ℕ, Bool, true, false, ◌≡◌, ◌≢◌, ◌⊎◌, if◌then◌else◌}
use iprl_poc.Common.Channel.{Channel, received, drained, recv_blocks, recv, close}
use iprl_poc.Components.{Prober}
use iprl_poc.Components.Output.{IsOutput}
use iprl_poc.Agent.Caracal.{CaracalResponse}
use iprl_poc.Agent.Prober.{
  Net, CaracalProber, Writes, send_directive, Emission, emission_panics, emission_waits,
  handle_response, cleanup_expired_probes, close_prober,
}
use iprl_poc.Agent.Prober.Tool.{IsStopped}

pub data CaracalTurn : Type 0 where
  goes_on : CaracalProber → CaracalTurn
  run_returns : CaracalTurn
  run_waits : CaracalTurn

-- A round of the loop; `done` says that the select takes one of its Done cases. An error of
-- `sendDirective` is passed over.
unfoldable pub run_caracal_prober : Net → ℕ → Writes → Bool → CaracalProber → CaracalTurn
run_caracal_prober net now writes done c = if done then run_returns else elim (recv c.in_ch) [
  | received d ch ↦ goes_on (send_directive net now writes d (record c { in_ch = ch })).0
  | drained ↦ run_returns
  | recv_blocks ↦ run_waits
]

-- A step of one of the three goroutines of Run; one that panics has no next state, and one that
-- waits has not been made yet, as the lock on the pending probes is held meanwhile.
pub data CaracalRuns (net : Net) (c c' : CaracalProber) : Type 0 where
  takes :
      (now : ℕ) (w : Writes)
      → run_caracal_prober net now w false c ≡ goes_on c'
      → CaracalRuns net c c'
  reads :
      (now : ℕ) (done : Bool) (r : CaracalResponse) (emission : Emission)
      → handle_response net now done r c ≡ (c', emission)
      → emission ≢ emission_panics
      → emission ≢ emission_waits
      → CaracalRuns net c c'
  ticks : (now : ℕ) → c' ≡ cleanup_expired_probes now c → CaracalRuns net c c'

abbrev pub caracal_prober : Net → Prober
caracal_prober net = record {
  State = CaracalProber;
  push_channel = λ c. c.in_ch;
  pull_channel = λ c. c.out_ch;
  pushed = λ c ch. record c { in_ch = ch };
  pulled = λ c ch. record c { out_ch = ch };
  Runs = CaracalRuns net;
  Returns = λ c. (now : ℕ) (w : Writes) → run_caracal_prober net now w true c ≡ run_returns;
  Released = λ c. (c.close_ch.is_closed ≡ true) × IsStopped c.tool;
  close = close_prober;
}

-- The flag and the two channels that Close sets are in step, and a closed prober's tool is stopped.
abbrev pub IsInStep : CaracalProber → Type 0
IsInStep c =
    (c.out_ch.is_closed ≡ c.closed)
    × (c.close_ch.is_closed ≡ c.closed)
    × ((c.closed ≡ false) ⊎ IsStopped c.tool)

-- What a step does to the output.
record CaracalStep (c c' : CaracalProber) : Type 0 where
  same_flag : c'.closed ≡ c.closed
  output : IsOutput c.out_ch c'.out_ch
  same_close_ch : c'.close_ch ≡ c.close_ch
  same_tool : c'.tool ≡ c.tool
