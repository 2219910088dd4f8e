-- ===== src/Lib.antt =====
-- A model of sandboxmatrix, which runs isolated sandboxes (containers) from blueprints, groups them in
-- matrices, keeps warm pools of them, scales them with the load of the host, lets the agents in them talk
-- to each other, and guards access to them with roles and quotas.
--
-- The parts and their interplay. A blueprint file is parsed, merged with its parents and validated
-- (pkg/blueprint); the controller (internal/controller) turns requests into calls of a container runtime
-- (internal/runtime) and records in a store (internal/state); the pool (internal/pool) makes containers
-- ahead of time with the same runtime and parser; sharding (internal/sharding) spreads tasks over the
-- members of a matrix and aggregation (internal/aggregation) collects their results, which come as messages
-- through the gateway (internal/agent/a2a); the quota manager (internal/quota) counts what a team has in
-- the stores; the probe runner (internal/probe) waits for a new sandbox; the autoscaler
-- (internal/autoscale) shrinks and pauses sandboxes under pressure; auth (internal/auth) decides who
-- may do what and keeps an audit log, and the server's middleware (internal/server) asks it for each
-- request.
--
-- Base                  shared names, native numbers and lists, Dict (Go maps), Action (methods that change
--                       a state and may fail; the state comes back beside an error too)
-- Api                   pkg/api/v1alpha1/types.go: Sandbox, Blueprint, Session, Matrix, User, ...
-- State                 internal/state: the interface Store with its laws; State.Memory is MemoryStore
--                       (store.go) and MemoryMatrixStore (matrix_store.go), State.File the stores that
--                       keep a JSON file (filestore.go, and those of matrix_store.go, session_store.go
--                       and team_store.go), State.Stores the instances for each stored type
-- Runtime               internal/runtime/runtime.go: the interface Runtime over a backend's state
-- Blueprint             pkg/blueprint/parser.go: File (validatePath, parseFileWithDepth, resolveExtends,
--                       ValidateFile), Merge (mergeBlueprints), Validate (Validate); theorems in Check,
--                       Inherit, Chain and Accepted
-- Controller            internal/controller/controller.go: stop, start, destroy, exec, snapshot, ...;
--                       Create (Create, startAndTrack, resolveSecrets, buildDeviceConfig),
--                       Restore (Restore), Sessions (session.go), Matrices (matrix.go) with Formation
--                       (CreateMatrix), Reconcile (reconciler.go)
-- Pool                  internal/pool/pool.go: the critical sections on one BlueprintPool; Interleaving
--                       runs them in any order, Manager puts Configure, Claim, Release, fillPool and
--                       Drain together
-- Sharding              internal/sharding/sharding.go: the three strategies
-- Agent.Gateway         internal/agent/a2a/gateway.go; Traffic is sequences of its operations, Queues and
--                       Fanout have the theorems
-- Aggregation           internal/aggregation/aggregation.go: Collect over a schedule of signals
-- Quota                 internal/quota/manager.go: CheckQuota and GetUsage; theorems in Limits, Overflow and
--                       Admission
-- Autoscale             internal/autoscale/autoscaler.go: the tracked sandboxes; Host reads limits and
--                       pressure, Loop has reconcile, Start and Stop; theorems in Changes, Guard,
--                       Sending, Parts, Restoring, Stopping and Panics
-- Probe                 internal/probe/probe.go: the probes and WaitForReady; theorems in Waiting
-- Auth                  internal/auth: Rbac (rbac.go) and Audit (audit.go)
-- Server                internal/server: AuthMiddleware (auth_middleware.go); OidcStates and Login are
--                       the state store and handleOIDCCallback of oidc_handlers.go; theorems in
--                       Granted, Audited, OidcStates and Login.Callback
-- Tests                 concrete systems on which the theorems are applied
--
-- How the code is read. A method with a pointer receiver is a function from the old state to a
-- result and the new state. The runtime, the file system, YAML and JSON, the clock, random tokens,
-- hash/fnv, net/http, strconv, float64, JWT and the OIDC provider, and for Create the quota
-- checker, the image cache and the probe runner, are parameters; a theorem that relies on them
-- names what it relies on (StoreLaws, OsLaws, CodecLaws, RuntimeWorks, RuntimeFails, Obeys,
-- Records). Errors keep their format string and the quoted values, without positions in lists.
-- Metrics, traces and logs, which nothing reads, are left out. A method that holds a mutex
-- throughout is one step; those of sessions and matrices, which hold none, are taken as calls that
-- do not overlap. What wakes a loop (tickers, deadlines, contexts) is a list of signals or a
-- parameter.
--
-- Bounds and fuel. Counters are natural numbers but for the round robin's, which wraps at 2^64; an
-- int that a check can find negative is a ℤ. The depth of a chain of blueprints is
-- max_extends_depth, the source's constant, and parse_levels recurs on what is left of it.
-- fill_pool recurs on fuel, one unit for each container that it tries to make and one to stop: on a
-- working runtime one more than the number of missing containers. WaitForReady recurs on one unit
-- for each probe: the product of its thresholds is enough. An int64 that the quota manager adds up
-- wraps at 2^64, and so does its sum of GPUs. The inbox of an agent holds 10000 messages, the
-- source's constant. The autoscaler's scales are in eighths. The lists of a run are as long as the
-- caller makes them.
--
-- Not modelled: the Bolt and etcd stores, the container backends, the MCP server, the rest of OIDC
-- and of the HTTP server, the command line and the clients. Warm and warmLoop only start
-- goroutines that call fillPool: the interleavings have any number of fills under way.
pub mod Base
pub mod Api
pub mod State
pub mod Runtime
pub mod Blueprint
pub mod Controller
pub mod Pool
pub mod Sharding
pub mod Auth
pub mod Agent
pub mod Aggregation
pub mod Quota
pub mod Autoscale
pub mod Probe
pub mod Server
pub mod Tests
