-- ===== src/Lib.antt =====
-- The IPRL measurement platform: a probing orchestrator, probing agents, directive generators.
--
-- A generator makes random probing directives and streams them to the orchestrator. The orchestrator
-- queues them and streams them to the agents that have joined, an agent has them probed by the
-- caracal tool, matches the answers of two neighbouring TTLs and streams forwarding info elements
-- back, and the orchestrator fans these out to its HTTP clients. Agents and generators Join and
-- Leave; the orchestrator keeps them in a registry and notifies the ones whose status has changed.
--
-- Which file models what:
--   Proto: the messages of proto/iprl.proto, as the structs that Go has for them.
--   Orchestrator/Store: internal/components/orchestrator/store.go, the registry; one function for
--     each method (AddOrUpdateAgent is add_or_update_agent, and so on). Store/Consistency,
--     Store/History and Store/Directory hold its invariants, Store/Registry an abstract
--     registry, Store/Loops its loops with break.
--   Orchestrator/Manager: internal/components/orchestrator/manager.go: Join, Leave, the setters and
--     the notification ticks, which Manager/Announce runs after a Join. Manager/Queues has
--     PushProbingDirectives, the two loops of PushForwardingInfoElements and Close; Manager/Fanout
--     has runFanout and the clients of Stream, which Manager/Clients runs in any order; Manager/Http
--     is the loop of Stream, and Manager/Dispatch runs the loops of several streams against one
--     directive queue. Manager/Deliver has the goroutines that send the notices to the processes.
--     Manager/Machine runs all of these in any order, and Manager/Run is Run with its goroutines,
--     runRPCServer and runHTTPServer.
--   Components: the interfaces Prober, DirectiveGenerator and MetaManager of
--     internal/components/components.go; Components/Group is errgroup, and Components/Member what
--     the Run functions of agents and generators have in common.
--   Clients: the constructors of internal/clients.
--   Agent/Manager: internal/components/agent/manager.go: the status, joinCluster, leaveCluster, one
--     attempt of runElementStream, and the pause before an element; Manager/Attempts runs attempts
--     against the orchestrator. Manager/Elements has the two goroutines of streamElements, and
--     Manager/Run is Run.
--   Agent/Caracal: the text protocol of internal/components/agent/caracal_prober.go.
--   Agent/Prober: the pending probes of that file: sendDirective, handleResponse,
--     cleanupExpiredProbes, Close, in Prober/Reader the loop of readCaracalOutput, and in Prober/Run
--     the goroutines of Run; Prober/Tool is the tool's process, and Prober/RoundTrip takes a directive
--     through all of it.
--   Agent/MockProber: generateElement of internal/components/agent/mock_prober.go, and in
--     MockProber/Run its channels, Run and Close.
--   Generator/Manager: internal/components/generator/manager.go: the status, joinCluster,
--     leaveCluster, Close and a round of streamDirectives, whose whole loop is in Manager/Rounds;
--     Manager/Attempts runs the attempts of runDirectiveStream against the orchestrator, and
--     Manager/Run is Run.
--   Generator/Mock: generateDirective of internal/components/generator/mock_directive_generator.go,
--     and in Mock/Run its channel, Run and Close.
--   Commands: the specs that the flags of cmd/agent/main.go, cmd/generator/main.go and
--     cmd/orchestrator/main.go make, in Commands/Boot what they make before Run, and in
--     Commands/Ends how they end; Commands/Pipeline, Commands/Route, Commands/Turns, Commands/Circle
--     and Commands/Platform put these programs together.
--   Util: the parsers of internal/util/util.go.
--   Api: FromProto of internal/api/types.go, with IpBytesToString and TSToTime of
--     internal/util/util.go, and in Api/Config the configuration structs.
--   Strings, Strconv: what the program uses of Go's strings and strconv packages, on bytes.
--   Common: tests on numbers, lists, maps with the visiting order of range, buffered channels,
--     integers with wrap-around, and the quotient of a second.
--   Samples: concrete inputs.
--
-- State is passed explicitly, and an error is a value beside it. A mutex makes a call one step. A Go
-- string is the list of its bytes, a map an association list; the order in which range visits a map
-- is an argument. Signed integers are wrapped to 64 or 32 bits where the code's are; a uint32 is
-- taken modulo 2 ^ 32 where the code adds to it. Loops over streams and channels run on the list of
-- what the stream and the select do, and stop as waiting at its end, so no fuel is needed; the other
-- loops are structural. A panic is an outcome of its own.
--
-- Arguments stand for what is outside of the repository: the uuid that uuid.New returns, the results
-- of RPC calls, the time, math/rand (Common.Draws.Rng, whose draw of Intn(n) is below n, and
-- Agent.MockProber.Draws) and net.IP's printing and parsing (Agent.Prober.Net,
-- and `print_ip` in Api).
--
-- Further arguments are errgroup (Components.Group, with its documented laws), the results of
-- net.Listen, Serve, ListenAndServe and of the calls that stop a server, grpc.NewClient and whether a
-- call over its connection arrives, the results of os/exec, and the two versions of backoff: Retry of
-- v2.2.1 (in the agent) passes on the last error of its operation once the context is done, and Retry
-- of v4.3.0 (in the generator) the error of the context. Commands/Boot takes the largest buffer that make allows, and the source of
-- random numbers that a seed gives.
--
-- A step of a Run of a prober or of a generator that panics has no next state in Components, where a
-- component's file has the panic as an outcome. A directive that is taken for a Send which fails is
-- marked as lost.
--
-- Not modelled: the wire of gRPC and HTTP, signals, the parsing of flags and the profiling server of
-- the commands, the registration of services and log lines, which are I/O; SleepWithContext, whose
-- result is always nil; the former prober in caracal_prober.go.old.txt.
mod Common
pub mod Proto
pub mod Strings
pub mod Strconv
pub mod Components
pub mod Clients
pub mod Orchestrator
pub mod Agent
pub mod Generator
pub mod Commands
pub mod Util
pub mod Api
pub mod Samples
