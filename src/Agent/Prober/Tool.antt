-- ===== src/Agent/Prober/Tool.antt =====
-- The process of internal/components/agent/caracal_prober.go: startCaracal, stopCaracal, and how Run
-- and Close use them. The results of os/exec are arguments.
use iprl_poc.Common.{
  Option, none, some, Bool, true, false, not, ◌≡◌, refl, arith, if◌then◌else◌, ◌≢◌, ◌⊎◌, inl, inr,
}

-- `c.stdin`, `c.stdout` and `c.cmd`: each is nil, or open and running, or closed and waited for.
pub data Handle : Type 0 where
  nil in_use ended : Handle

pub record ToolProcess : Type 0 where
  pub stdin : Handle
  pub stdout : Handle
  pub process : Handle

pub data StartError : Type 0 where
  stdin_pipe_fails stdout_pipe_fails start_fails : StartError

-- The flags are the results of StdinPipe, StdoutPipe and Start; a pipe that is not made is nil. A
-- failed Start leaves no process, and of the pipes what `left` says.
unfoldable pub start_caracal :
    Handle → Bool → Bool → Bool → ToolProcess → ToolProcess × Option StartError
start_caracal left in_ok out_ok start_ok t =
    if not in_ok
    then (record { stdin = nil; stdout = t.stdout; process = nil }, some stdin_pipe_fails)
    else if not out_ok
    then (record { stdin = in_use; stdout = nil; process = nil }, some stdout_pipe_fails)
    else if not start_ok
    then (record { stdin = left; stdout = left; process = nil }, some start_fails)
    else (record { stdin = in_use; stdout = in_use; process = in_use }, none)

-- Closing a file or killing a process again is an error that the code passes over.
unfoldable pub end_handle : Handle → Handle
end_handle nil = nil
end_handle in_use = ended
end_handle ended = ended

unfoldable pub stop_caracal : ToolProcess → ToolProcess
unfolding end_handle
stop_caracal t = record {
  stdin = end_handle t.stdin;
  stdout = end_handle t.stdout;
  process = end_handle t.process;
}

-- A new prober has no tool.
abbrev pub no_tool : ToolProcess
no_tool = record { stdin = nil; stdout = nil; process = nil }

-- What Run does with the tool: if it does not start, Run returns its error at once, and else the
-- deferred call stops it after the loop.
unfoldable pub run_tool :
    Handle → Bool → Bool → Bool → ToolProcess → ToolProcess × Option StartError
unfolding start_caracal stop_caracal
run_tool left in_ok out_ok start_ok t =
    let (started, e) = start_caracal left in_ok out_ok start_ok t in
    elim e [ none ↦ (stop_caracal started, none) | some x ↦ (started, some x) ]

-- Nothing is open or runs.
abbrev pub is_ended : Handle → Bool
is_ended in_use = false
is_ended _ = true

abbrev pub IsStopped : ToolProcess → Type 0
IsStopped t = (is_ended t.stdin ≡ true) × (is_ended t.stdout ≡ true) × (is_ended t.process ≡ true)

end_handle-is_ended : (h : Handle) → is_ended (end_handle h) ≡ true
unfolding end_handle
end_handle-is_ended nil = refl
end_handle-is_ended in_use = refl
end_handle-is_ended ended = refl

pub stop_caracal-IsStopped : (t : ToolProcess) → IsStopped (stop_caracal t)
unfolding stop_caracal
stop_caracal-IsStopped t =
    (end_handle-is_ended t.stdin, end_handle-is_ended t.stdout, end_handle-is_ended t.process)

-- A Close after Run leaves nothing open or running, and a further one changes nothing. Run on its own
-- leaves the same behind if the tool starts; but if only the pipe of the tool's output cannot be
-- made, the pipe to its input stays open.
pub run_tool-IsStopped :
    (left : Handle) (in_ok out_ok start_ok : Bool)
    → let (t, e) = run_tool left in_ok out_ok start_ok no_tool in
      IsStopped (stop_caracal t)
      × (stop_caracal (stop_caracal t) ≡ stop_caracal t)
      × ((e ≢ none) ⊎ IsStopped t)
      × ((e ≢ some stdout_pipe_fails) ⊎ (t.stdin ≡ in_use))
unfolding run_tool start_caracal stop_caracal end_handle
run_tool-IsStopped left true true true =
    ((refl, refl, refl), refl, inr (refl, refl, refl), inl (λ e. cc))
run_tool-IsStopped nil true true false =
    ((refl, refl, refl), refl, inl (λ e. cc), inl (λ e. ground arith))
run_tool-IsStopped in_use true true false =
    ((refl, refl, refl), refl, inl (λ e. cc), inl (λ e. ground arith))
run_tool-IsStopped ended true true false =
    ((refl, refl, refl), refl, inl (λ e. cc), inl (λ e. ground arith))
run_tool-IsStopped left true false start_ok = ((refl, refl, refl), refl, inl (λ e. cc), inr refl)
run_tool-IsStopped left false out_ok start_ok =
    ((refl, refl, refl), refl, inl (λ e. cc), inl (λ e. ground arith))
