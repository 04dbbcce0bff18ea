-- ===== src/Lib.antt =====
-- Epistemic engine: a model of the decision engine of this repository and what is proved of
-- it.
--
-- The program records runs of AI systems, asks an analyzer for the claims that a
-- recommendation rests on, plans and runs verifications of critical claims, and evaluates a
-- policy gate that issues one certificate for each decision. The control plane
-- (apps/control-plane/internal) is a service over a repository; the portable protocol (api/go,
-- sdk/go) lets other programs send events and ask for decisions through a provider.
--
-- Which file models which part:
-- - Prelude.antt, Prelude/: lists, options and Boolean tests that all the others share.
-- - Go.antt, Go/: what the code uses of Go and its library: results with errors and state
--   (Effect), maps as association lists with one entry for each key (Map), machine numbers and
--   time (Numbers), strings (Text, and strings.Split and Join in Split), sort.Strings (Sort),
--   rules for computations that keep a property of the state (Keeps), and maps whose entries
--   do not clash (Distinct).
-- - Domain.antt, Domain/: apps/control-plane/internal/domain. One record for each struct; a
--   string type with constants is a data type whose constructor `unlisted` holds any other
--   string.
-- - Policy.antt: apps/control-plane/internal/policy/policy.go, `Evaluate`, one function for
--   each of its loops. Policy/Laws.antt has its specification, Policy/Order.antt the
--   independence of order.
-- - Memory.antt, Memory/: apps/control-plane/internal/store, the files memory.go,
--   memory_portfolio.go and memory_integration.go: the maps of `Memory` and a function for
--   each method, under the same name. A method runs under the mutex of the repository, so that
--   it is one step. Memory/Runs/Redelivery.antt and Memory/Verifications/Settling.antt have
--   what two of them do.
-- - Lifecycle.antt: apps/control-plane/internal/lifecycle/bus.go, a list of channels with
--   their buffers. Lifecycle/Delivery.antt has what is delivered.
-- - Service.antt, Service/: apps/control-plane/internal/service, the files service.go,
--   portfolio.go and integration.go, and apps/control-plane/internal/verification/planner.go:
--   an operation runs over the repository in memory, the bus, and counters of the random
--   identifiers drawn and of the readings of the clock. Analyze is split into Analysis and
--   Renaming, ExecuteVerification is Execution, Evaluate is Evaluation. Service/Invariant has
--   the invariants: each operation keeps whatever the repository's methods keep (Base,
--   Requests, Outcomes, Accounts, Ingesting), Reach has the sequences of requests, every
--   operation that writes among them, and Safety what follows. Operations and Completion have when single operations fail and succeed.
--   Service/Ingest.antt has IngestProject, Ingest/Genuine and Ingest/Access what it lets
--   through.
-- - Protocol.antt, Protocol/: api/go/types.go, validate.go and provider.go, and the local,
--   disabled and composite providers of sdk/go/providers. A provider is a record of functions
--   on a state. Protocol/Gate.antt and Persistence.antt have what the local provider decides,
--   Agreement.antt what the composite one does, and Acceptance.antt what validation accepts.
-- - Gateway.antt, Gateway/: apps/control-plane/internal/httpapi/protocol.go, the gateway of
--   the portable protocol before the service. State has the indices under its lock and the
--   writes, Accept `acceptProtocolEvent`, Requests, Evaluate and Queries the handlers over
--   decoded bodies (Reply is their monad: an answer or an error with a status; the library's
--   `sort.SliceStable` is an insertion sort with the comparison of the code), Portable and
--   Context the translations. Consistency, Rollback and Safety have what one event does to the
--   indices, and Invariant what holds after any requests: of the indices, the streams, and the
--   results with the approval and the certificate that they rest on.
-- - Http.antt, Http/: apps/control-plane/internal/httpapi/handler.go: the switch over methods
--   and paths (Routes), that every handler is reached (Paths), and the status of an error
--   (Errors).
-- - Analyzer.antt, Analyzer/: apps/control-plane/internal/analysis, the files analyzer.go,
--   rules.go and code_change_review.go: what the words of an event say (Text, Sees), evidence
--   and its support, and `Analyze` (Rules), and the review of code changes (Review). A text is
--   its bytes in lower case. Analyzer/Gate.antt has what the policy gate makes of the rules'
--   claims, Coverage.antt when a review supports one. The service takes the analyzer as a
--   parameter.
-- - Relay.antt, Relay/: cmd/epistemic-relay/main.go: redaction of secrets in JSON trees
--   (Redact), retries (Retry), the routes over bodies that decode or not (Server) and one walk
--   over watched files (Watch).
--
-- Parameters of the model, in the record `Env` of Service/System.antt: the clock, random
-- bytes, SHA-256, json.Marshal, the analyzer (rules or a remote model) and the runner of
-- verifications (containers). The record `GatewayEnv` of Gateway/State.antt adds the hashes,
-- the JSON and the clock of the gateway, and the formats of texts; `IngestEnv`, `AnalyzerEnv`,
-- `ReviewEnv`, `RelayEnv` and `WatchEnv` do so for their parts. The theorems hold for any of
-- them; a random identifier may even repeat. JSON of a specification is a function argument.
--
-- Every loop of the code runs over a list, so that the functions recurse on it and no fuel is
-- needed; a retry recurses on the attempts that are left. `int` counters are unbounded
-- naturals; int64 sequence numbers are integers; a float64 is its bits, whose arithmetic the
-- analyzer takes as a parameter. A request runs to its end before the next one: the
-- interleaving of two requests between calls of the repository is not modelled. A range over a
-- Go map visits the association list in its order, which may be any.
--
-- Not modelled: PostgreSQL (SQL), the bytes and headers of HTTP, its documentation pages, the
-- remote analyzer, the runner, the pipeline generator, the command line and the start of the
-- relay, the adapters, the file and remote providers, the dashboard read, and the rendering of
-- reports in Markdown.
pub mod Prelude
pub mod Go
pub mod Domain
pub mod Policy
pub mod Memory
pub mod Lifecycle
pub mod Service
pub mod Protocol
pub mod Gateway
pub mod Analyzer
pub mod Relay
pub mod Http
