-- ===== src/Orchestrator/Manager/Http.antt =====
-- The loop of `Stream` in internal/components/orchestrator/manager.go: the views that an HTTP client
-- is sent. The case that a select takes and the result of Encode are arguments, as is the printing of
-- addresses.
pub mod Reach
use iprl_poc.Common.{ℕ, List, [], ◌∷◌, Option, none, some, Bool, true, false, Text, if◌then◌else◌}
use iprl_poc.Common.Channel.{Channel, received, drained, recv_blocks, recv}
use iprl_poc.Proto.{ForwardingInfoElement}
use iprl_poc.Api.{ForwardingInfoElementJson, from_proto}

-- A round whose select takes a Done case, or a read whose Encode works or fails.
pub data ClientRound : Type 0 where
  client_leaves encode_works encode_fails : ClientRound

-- How the loop stands: it has returned, waits for an element, or would start another round.
pub data ClientEnd : Type 0 where
  client_returned client_waits client_goes_on : ClientEnd

-- `rest` is what the next rounds do. An element without a view is passed over.
unfoldable pub write_view :
    ClientRound
    → Option ForwardingInfoElementJson
    → List ForwardingInfoElementJson × ClientEnd
    → List ForwardingInfoElementJson × ClientEnd
write_view r none rest = rest
write_view client_leaves (some view) rest = ([], client_returned)
write_view encode_works (some view) rest = (view ∷ rest.0, rest.1)
write_view encode_fails (some view) rest = ([], client_returned)

unfoldable pub serve_client :
    (List ℕ → Text)
    → List ClientRound
    → Channel ForwardingInfoElement
    → List ForwardingInfoElementJson × ClientEnd
unfolding write_view
serve_client print_ip [] ch = ([], client_goes_on)
serve_client print_ip (client_leaves ∷ rs) ch = ([], client_returned)
serve_client print_ip (r ∷ rs) ch = elim (recv ch) [
  | received e ch' ↦ write_view r (from_proto print_ip (some e)) (serve_client print_ip rs ch')
  | drained ↦ ([], client_returned)
  | recv_blocks ↦ ([], client_waits)
]
