-- ===== src/Generator/Manager.antt =====
-- internal/components/generator/manager.go: the status of a generator, joining and leaving, and the
-- paced stream of directives. RPC results and what each select does are arguments.
pub mod Stream
pub mod Rounds
pub mod Attempts
pub mod Run
mod Meta
use iprl_poc.Common.{
  ℕ, ◌*◌, Option, none, some, Bool, true, false, Text, length, ◌==◌, ◌||◌, not, Result, ok, err,
  if◌then◌else◌,
}
use iprl_poc.Common.Int.{ℤ, pos, wrap64}
use iprl_poc.Common.Pacing.{div_second}
use iprl_poc.Proto.{
  ProbingDirectiveGeneratorSpec, ProbingDirectiveGeneratorStatus, ProbingDirective, JoinResponse,
  agent_response, generator_response,
}

-- Nil pointers are `none`; `once_done` is the state of the sync.Once around the generator's Close.
pub record GeneratorManager : Type 0 where
  pub current_spec : Option ProbingDirectiveGeneratorSpec
  pub current_status : Option ProbingDirectiveGeneratorStatus
  pub once_done : Bool

unfoldable pub new_generator_manager : ProbingDirectiveGeneratorSpec → GeneratorManager
new_generator_manager spec = record {
  current_spec = some spec;
  current_status = none;
  once_done = false;
}

unfoldable pub get_spec : GeneratorManager → Option ProbingDirectiveGeneratorSpec
get_spec m = m.current_spec

unfoldable pub get_status : GeneratorManager → Option ProbingDirectiveGeneratorStatus
get_status m = m.current_status

unfoldable pub set_spec : Option ProbingDirectiveGeneratorSpec → GeneratorManager → GeneratorManager
set_spec spec m = record m { current_spec = spec }

unfoldable pub set_status :
    Option ProbingDirectiveGeneratorStatus → GeneratorManager → GeneratorManager
set_status status m = record m { current_status = status }

-- The orchestrator's Update call.
unfoldable pub update : ProbingDirectiveGeneratorStatus → GeneratorManager → GeneratorManager
unfolding set_status
update status m = set_status (some status) m

pub data JoinError {ℓ} (E : Type ℓ) : Type ℓ where
  rpc_error : E → JoinError E
  nil_status : JoinError E

-- What `joinCluster` makes of the reply to its Join call.
unfoldable pub join_cluster {ℓ} :
    {E : Type ℓ}
    → Result E JoinResponse
    → GeneratorManager
    → GeneratorManager × Option (JoinError E)
unfolding set_status
join_cluster (err e) m = (m, some (rpc_error e))
join_cluster (ok (agent_response s)) m = (m, some nil_status)
join_cluster (ok (generator_response s)) m = (set_status (some s) m, none)

-- The address and the uuid of the Leave call, if there is one.
unfoldable pub leave_cluster : GeneratorManager → Option (Text × Text)
leave_cluster m = elim m.current_status [
  | none ↦ none
  | some status ↦ elim m.current_spec [
    | none ↦ none
    | some spec ↦ some (spec.orchestrator_address, status.uuid)
  ]
]

-- Whether the loop of `streamDirectives` goes on to pull a directive.
unfoldable pub can_stream : Option ProbingDirectiveGeneratorStatus → Bool
can_stream none = false
can_stream (some s) =
    not (s.probe_generation_rate_per_second_per_agent == 0 || length s.agent_specs == 0)

-- The pause before a send. The rate is that of the status read at the top of the loop, the agents
-- those of the status read after the pull; none is a panic, on nil or on a division by zero.
unfoldable pub send_interval :
    ProbingDirectiveGeneratorStatus → Option ProbingDirectiveGeneratorStatus → Option ℤ
send_interval s none = none
send_interval s (some s') =
    div_second (wrap64 (pos (s.probe_generation_rate_per_second_per_agent * length s'.agent_specs)))

-- What the select that pulls does.
pub data Pull {ℓ} (A : Type ℓ) : Type ℓ where
  pulled : A → Pull A
  source_closed : Pull A
  context_done : Pull A

pub data StreamTurn {ℓ} (A : Type ℓ) : Type ℓ where
  retry_later : StreamTurn A
  stream_ends : StreamTurn A
  turn_panics : StreamTurn A
  sends_after : ℤ → A → StreamTurn A

abbrev paced {ℓ} : {A : Type ℓ} → Option ℤ → A → StreamTurn A
paced none d = turn_panics
paced (some pause) d = sends_after pause d

abbrev pull_turn :
    ProbingDirectiveGeneratorStatus
    → Option ProbingDirectiveGeneratorStatus
    → Pull ProbingDirective
    → StreamTurn ProbingDirective
pull_turn s s' source_closed = stream_ends
pull_turn s s' context_done = stream_ends
pull_turn s s' (pulled d) = paced (send_interval s s') d

-- One round of the loop: `s` is the status at its top, `s'` the status after the pull. The sleep that
-- follows is `SleepWithContext`, whose error is always nil.
unfoldable pub stream_turn :
    Option ProbingDirectiveGeneratorStatus
    → Option ProbingDirectiveGeneratorStatus
    → Pull ProbingDirective
    → StreamTurn ProbingDirective
stream_turn none s' p = retry_later
stream_turn (some s) s' p = if can_stream (some s) then pull_turn s s' p else retry_later

-- `Close` closes the directive generator at its first call; the flag says whether this one does.
unfoldable pub close_generator : GeneratorManager → GeneratorManager × Bool
close_generator m = if m.once_done then (m, false) else (record m { once_done = true }, true)
