-- ===== src/Clients.antt =====
-- The clients under internal/clients. `new_client` is grpc.NewClient with its address and insecure
-- credentials, `stub` the generated constructor of a client over a connection.
use iprl_poc.Common.{Text, Result, ok, err}

module _ {E Conn Stub : Type 0} (new_client : Text → Result E Conn) (stub : Conn → Stub) where
  unfoldable pub new_insecure_agent_client : Text → Result E (Stub × Conn)
  new_insecure_agent_client address = elim (new_client address) [
    | err e ↦ err e
    | ok conn ↦ ok (stub conn, conn)
  ]

  unfoldable pub new_insecure_generator_client : Text → Result E (Stub × Conn)
  new_insecure_generator_client address = elim (new_client address) [
    | err e ↦ err e
    | ok conn ↦ ok (stub conn, conn)
  ]

  unfoldable pub new_insecure_orchestrator_client : Text → Result E (Stub × Conn)
  new_insecure_orchestrator_client address = elim (new_client address) [
    | err e ↦ err e
    | ok conn ↦ ok (stub conn, conn)
  ]
