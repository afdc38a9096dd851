-- ===== src/Components/Serving.antt =====
-- How `runRPCServer`, which the managers under internal/components/orchestrator, agent and generator
-- have in the same words, stops its server once the context is done.
use iprl_poc.Common.{List, [], ◌∷◌, Bool, if◌then◌else◌}

pub data StopCall : Type 0 where
  graceful_stop stop : StopCall

-- Whether GracefulStop returns within 100 ms.
unfoldable pub stop_calls : Bool → List StopCall
stop_calls in_time = if in_time then graceful_stop ∷ [] else graceful_stop ∷ stop ∷ []
