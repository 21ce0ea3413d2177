-- ===== src/Lib.antt =====
-- Verification library of hermes-cluster's lifecycle-manager, the stateless service that keeps
-- Hermes agent sessions as Kubernetes SandboxClaims. Paths below are from the repository's root;
-- `internal` stands for lifecycle-manager/internal.
--
-- The program. A session is one claim, its sandbox and, with the connector integration on, one
-- connector instance. The manager (internal/lifecycle) creates, reads, wakes, restarts and
-- decommissions sessions through three clients: Kubernetes (internal/k8s), the relay connector
-- (internal/connector) and the agent's pod (internal/agent). The sweeper (internal/sweeper) lists
-- the claims on a ticker and, for each one, resumes a session whose wake is due, decommissions one
-- whose time to live has passed, suspends one that is idle, and ensures its exposure; every tenth
-- sweep it hands the claims and the instances to the reconcile store (internal/reconcile). The
-- HTTP surface (internal/httpapi) turns requests into calls of the manager and results into
-- statuses.
--
-- The files.
--   Base        the shared names; Base/Int the signed integers and the int64 wrap-around, Base/Dict
--               Go's maps as association lists, Base/Text and Base/Decimal texts and decimal numbers
--               (strconv), Base/Errors errors as values with errors.Is, Base/Exec operations that
--               change a state and may fail, Base/Frame bounds on what an operation leaves alone
--   Clock       Go's time.Duration and time.Time, as counts of nanoseconds; Clock/Calendar the
--               calendar, Clock/Rfc3339 the texts of times (time.Format and time.Parse),
--               Clock/ParseDuration the texts of durations
--   Session     internal/session: state.go (derive) and session.go; Session/Pattern the regular
--               expressions, Session/Id the ids
--   K8s         internal/k8s/client.go; K8s/Contract what the program relies on of a client;
--               K8s/Fake the in-memory client of fake.go; K8s/Value the documents of a cluster and
--               their merge (RFC 7386); K8s/Unstructured the fields of claims and sandboxes
--               (unstructured.go); K8s/Dynamic the client of a real cluster (dynamic.go), with its
--               exposure objects in K8s/Dynamic/Exposure (exposure.go), the documented behaviour of
--               an API server in K8s/Dynamic/Server, and the contract of the client in
--               K8s/Dynamic/Sound
--   Connector, Agent   the records and interfaces of internal/connector and internal/agent;
--               Connector/Http and Agent/Http the clients over HTTP, Connector/ApiError the
--               text of an APIError
--   Lifecycle   internal/lifecycle/manager.go: Durations, Read (Get, List, Sandbox, Instances),
--               Create, Control (Wake, Restart, Decommission), and Frame
--   Reconcile   internal/reconcile/reconcile.go
--   Sweeper     internal/sweeper: Idle (idle.go), Exposure (exposure.go), and of runner.go the
--               quiet clock (Quiet), sweepWake and sweepTTL (Timers), sweepIdle (Suspend) and the
--               loop over the claims (Sweep), and the loop over sweeps (Run)
--   HttpApi     internal/httpapi: the requests, the guard and the answers; HttpApi/Serve the handlers
--               and the routing table
--   Config      internal/config: the settings; Config/Reading their readers, Config/Checks their
--               checks, Config/Load the two together
--   Main        cmd/lifecycle-manager/main.go: the parts put together
--   Tests       one small cluster on which the theorems are run; Tests/Cluster an API server whose
--               state is a map of documents, which serves as K8s/Dynamic/Server asks
--
-- How the code is modelled. A method is a function from the state it reads and writes to its
-- result and the new state (`Exec`); `World` holds the states behind the three clients, the clock,
-- the random bytes and the manager's instance cache, and `Sweeping` adds the quiet clock and the
-- reconcile store. The manager's clients are records of operations over any state, so a theorem
-- about the manager holds for every client that keeps K8s/Contract, whatever the connector and the
-- agent answer; each time a client is called it may fail. Guards and early returns are the
-- branches of `if` and of small functions by clauses, in the order of the code. Loops are
-- recursion on the list that the code ranges over, so no fuel is needed, but for the terms of a
-- duration, where the length of the text is enough (Clock/ParseDuration/Laws); the endless loop of
-- Run is recursion on the schedule that it meets, one draw of the random number and one answer of
-- the context for each turn. The order in which Go ranges over a map is not fixed, and no theorem
-- depends on it.
--
-- What is a parameter. Of the clients over HTTP, sending a request, JSON and the escapes of URLs
-- (their `Web`); a request to the HTTP surface comes with its endpoint and its decoded body; of
-- the configuration, the environment, the files and the product in floating point of a fractional
-- duration (`Env`). Of the client of a real cluster, the dynamic interface of client-go (`Api`),
-- the loading of its configuration (`Loading`) and the accessors of apimachinery (`Accessors`):
-- `Serves` says of an API server that it answers by the stored documents, that a write of one
-- object leaves the others alone, that a patch is the merge of RFC 7386, and that what it stores
-- satisfies the schemas; `Reads` says of the accessors that they read the fields they are named
-- for. A patch is the document that its bytes spell. An accepted delete is
-- taken to remove the claim at once; a claim that a finalizer keeps as Terminating is one of the
-- states that reads and sweeps start from, not a result of a delete here. Which claims a list
-- returns is left open: a list changes nothing, and no theorem builds on its completeness. The namespace is taken to hold no claim but
-- the managed ones where the contract is claimed.
--
-- What is not modelled. Logging; mutexes, since each operation is one step (the cache of Instances
-- is read and written in one step where the code releases its lock for the call of the connector);
-- contexts and their deadlines, which show as failing clients, and as the end of the schedule of
-- Run; the text of error messages but for APIError's; the logger, the signals and the listening of
-- main.go; the chart. The in-memory client hands out claims that share their annotation map with
-- the stored ones; the copies here share nothing, which no caller can tell since none writes to a
-- map it was handed.
pub mod Base
pub mod Clock
pub mod Session
pub mod K8s
pub mod Connector
pub mod Agent
pub mod Lifecycle
pub mod Reconcile
pub mod Sweeper
pub mod HttpApi
pub mod Config
pub mod Main
pub mod Tests
