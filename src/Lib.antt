-- ===== src/Lib.antt =====
-- deploy-gateway: an HTTP service that restarts and rolls out Kubernetes deployments for GitHub Actions
-- runs, once their token and their grant have been checked, and keeps an audit row of each operation.
--
-- The parts and how they interact:
--   * A request (internal/api/server.go) is authenticated by an OIDC verifier (internal/authn) and
--     authorized by a backend (internal/authz, internal/keycloak). The manager (internal/operation) then
--     records an operation in the store (internal/store), patches the deployment (internal/kube), tells
--     the chat (internal/notify) and starts a watcher, which follows the rollout to its end.
--   * Three writers race to end an operation: its watcher, the sweeper and a read of a stale operation.
--     The store accepts one terminal write, and only its writer sends the terminal message. The response of
--     that write may be lost, and then nobody does.
--
-- The files:
--   * Base: what the modules share. Errors are Go's errors: a sentinel and a text.
--   * Store (internal/store/operation.go), Store/Api (the interface Store with its promises), Store/InMemory
--     (inmem.go) and Store/Dynamo (dynamo.go), with Pages (scans over pages), Expressions (what
--     the expressions of an update mean), Conditional (UpdateTerminal), Race (several writers of it), and
--     Keyed, Scans and Lawful (the store on a table whose only key is the operation's id).
--   * Kube and Kube/Rollout (internal/kube/rollout.go): the deployment and the verdict on it.
--   * Kube/Client (internal/kube/client.go), with Stamp (restartStamp) and Patch (the bodies of the patches,
--     and a reader of their JSON).
--   * Authn (internal/authn); Authz, with Policy, Ref and Shadow (internal/authz).
--   * Keycloak (internal/keycloak): Cache (cache.go), Http (the server as a parameter), Token (token.go),
--     Client and Questions (client.go), Authorizer (authorizer.go).
--   * Manager (internal/operation): Platform (the interface Kube, the clock, the contexts), World (the
--     state and the monad), Resolve, Start, Crash and Watch (manager.go), Reconcile, with Sweeps and Sweeper
--     (reconcile.go and Get), Cluster (the manager on the client of internal/kube/client.go).
--     Steps says what the methods do to the store and the chat as a step relation, whose invariants
--     hold for every interleaving of atomic store calls; History has the calls.
--   * Api (internal/api/server.go): the requests and responses as data, Responses, Handlers, Guard,
--     Status, Work, Accepted, Served, Steps, History.
--   * Notify (internal/notify): Format (format.go), Transport (telegram.go), Notifier (notify.go), with Waits
--     (the wait for the start message).
--   * Boot (cmd/gateway/main.go): the choice of the authorization backend, and Main (main).
--   * Tests: the theorems on concrete runs.
--
-- State is explicit: a method of the manager, of the HTTP server or of the Keycloak client takes the
-- state that it finds and gives back its result and the state that it leaves. The store, the cluster,
-- the authorizer and the Keycloak server are records of functions on states of their own, with what
-- the code relies on as named records of hypotheses. A time is a number of nanoseconds.
--
-- Fuel: the watch loop takes a number of rounds. Each round but the last sleeps a second at least, so
-- one round more than there are seconds up to the deadline is enough. The retry loops of the Keycloak
-- client and of the Telegram transport have two and three passes, as in the source. A scan of the
-- DynamoDB table takes a number of passes; one more than there are pages is enough. The sweeper takes the
-- number of its ticks.
--
-- Not modelled: the AWS SDK, client-go, go-oidc and net/http (parameters, or left out), with them the
-- listener of main and its shutdown; log lines; the codecs of JSON and YAML, the check of a token's
-- signature, the random part of an operation id, the escapes of URLs and the table of strconv.IsPrint
-- (of which `%q` makes use beyond ASCII), which are parameters; the
-- fake Kubernetes of the tests; a table with a sort key that holds one id twice, beyond the error that
-- the search reports. Deadlines of contexts are in what a call answers, but for the watcher's own
-- deadline, which is explicit. A call of the store is atomic, as the mutex of the
-- in-memory store makes it; that of DynamoDB is a scan and a conditional write, and since the scan may be
-- old, the promises of the interface say nothing of whether an operation is found.
pub mod Base
pub mod Store
pub mod Kube
pub mod Authz
pub mod Authn
pub mod Manager
pub mod Keycloak
pub mod Api
pub mod Notify
pub mod Boot
pub mod Tests
