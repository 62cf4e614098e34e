-- ===== src/Lib.antt =====
-- hyperbox runs commands in sandboxes. A server (crates/hyperbox-server) creates sandboxes
-- through a backend, runs managed processes in them, remembers snapshots and names, and counts
-- what it does. A sandbox reaches the network by a policy (crates/hyperbox-core,
-- crates/hyperbox-network), which a DNS proxy and a firewall enforce.
--
-- The files and what they model:
-- - Prelude and its children: lists, texts, numbers and maps, with the operations of Rust's
--   standard library that the program calls. A text is the list of its code points.
-- - Core: crates/hyperbox-core. Core.Allowlist is `AllowlistEntry` and `Allowlist` of config.rs;
--   Core.Config is the rest of config.rs, model.rs and the data of backend.rs; Core.Process,
--   Core.Snapshot, Core.Template and Core.Error are the files of those names.
-- - Server.Environment: the trait `SandboxBackend` as a record of functions over the state of an
--   implementation, the clocks, the UUID generator, one environment variable, and the file
--   system's answers on snapshot artifacts. All of these are parameters.
-- - Server.Monad: a method is a function from the state to its result and the state that it
--   leaves, also when it fails.
-- - Server.Store: `InMemorySnapshotStore` of crates/hyperbox-server/src/snapshot_store.rs, as
--   functions of its four maps. Server.Sqlite: `SqliteSnapshotStore` of the same file, whose
--   statements are operations on tables of rows, keyed by the primary key; how identifiers,
--   times and JSON are written is the parameter `Format`. Server.Stored is what serde makes of a
--   configuration before it is written as JSON, with the serializer of
--   crates/hyperbox-core/src/config.rs. Encoding is the rows of a store, Writes and Reads the
--   operations of both stores side by side, and Refinement compares them.
-- - Server.Shell, Server.Scripts, Server.Probe, Server.Naming: the free functions of
--   crates/hyperbox-server/src/runtime.rs. Server.Shell is `shell_escape` and `shell_join`;
--   Server.Scripts the paths, the scripts and `process_expiry_at`; Server.Probe
--   `parse_process_probe`; Server.Naming `fnv1a64`, `sanitize_affinity_component` and
--   `derive_auto_run_affinity_name`.
-- - Server.Metrics and Server.Pool: metrics.rs and pool.rs of the same crate.
-- - Server.LocalBackend: `LocalBackend` of local_backend.rs, with the host (files, commands,
--   archives, clock, identifiers) as the parameter `Host`; `local_backend` is the model as a
--   `Backend`, the interface of core's backend.rs. Its children are Paths, where an accepted
--   path leads, Forgetting, what `destroy` leaves, and Fresh, the identifiers as the warm pool
--   relies on them.
-- - Server.BackendFactory: backend_factory.rs of the same crate, with the environment and the
--   probes as the parameter `Surroundings`. Its children are Apple, the helper and the runtime
--   of the Apple backend, Selection, which is `resolve_backend`, and Justified, why a backend is
--   chosen.
-- - Server.Runtime: `HyperboxServer` of runtime.rs. Its state is the record `World`; its
--   children hold the methods: Processes (refreshing, purging, the search for an active
--   process), Sandboxes (hydration, creation, snapshots, names), Runs (`start_process`,
--   `prepare_run_sandbox`, `get_process`), StartRun (`start_run`), Watch (listing, waiting,
--   cancelling, logs) and Destroy. Waiting follows the polling loops to their ends. Table is its
--   process table beside the records that a method has read and still holds; Consistency and
--   Exclusive hold the proofs about the methods.
-- - Server.Wire, Server.Grpc and Server.Client: the messages of proto/hyperbox/v1/control.proto
--   with their conversions, `GrpcControlService` of grpc.rs over the server's methods, and
--   `GrpcControlClient` of client.rs (Calls) over a service, which is the record `Control`. The
--   texts of UUIDs and times, and the order in which the map of a message gives its entries
--   back, are the parameter `Codec`. A method on fuel passes its fuel on.
-- - Network: `NetworkPolicyEvaluator`; Network.Dns is `DnsAllowlistProxy::handle_query`, with
--   the message codec and the upstream as parameters; Denial describes a message by what it
--   holds. Network.Firewall is firewall.rs; Verdict runs its plan on a description of nft: one
--   table, its forward chain at its hook, and the rules that nft accepts.
-- - Agent: `AgentService` of crates/hyperbox-agent/src/daemon.rs, with the guest's files and
--   commands as the parameter `Guest`; Agent.Shell is the method `shell`. Status is the error of
--   the gRPC services. Agent.Paths, Agent.Resolve and Agent.Files hold the proofs about paths
--   and about the root that a file operation works below.
-- - Firecracker: crates/hyperbox-firecracker, with the host (files, processes, the machines'
--   sockets, the resolver, the guest agent) as the parameter `Host`. Firecracker.Api is api.rs,
--   Vm is vm.rs, and Workspace, Allowlist, Setup and Backend are backend.rs;
--   `firecracker_backend` is the model as a `Backend`. Table and Methods hold which calls leave
--   the table of sandboxes alone, Calls the states that the methods lead to, Enforcement the
--   firewall of every machine, Waiting the wait for the socket, Forgetting what `destroy`
--   leaves.
-- - Cli.TemplateAuto: crates/hyperbox-cli/src/template_auto.rs, with the files of the workspace
--   as a parameter.
-- - Tests: runs at concrete inputs.
--
-- A method runs from start to end without interleaving with another; the mutexes and the
-- `.await` points are not modelled. An identifier is the number of its UUID. A time is a number
-- of milliseconds, and an instant one of nanoseconds. Counters and hashes of 64 bits wrap as in
-- the source; other numbers are exact.
--
-- Fuel: `fill` of the pool runs its loop on one unit more than the target, which is enough since
-- each turn adds a sandbox; the loop's own theorem counts it. The polling loops of
-- `wait_process` and `cancel_process` take their fuel as an argument and return `none` where it
-- is used up. Some fuel is enough if the clock goes on, since each turn reads it and the
-- deadline is fixed; `wait_for_socket` of the Firecracker backend makes 101 turns of 30
-- milliseconds for its 3 seconds, and the 20 attempts of `connect_agent` are those of the
-- source. What else is stated of the polling loops holds for every fuel.
--
-- Not modelled: the Apple backend, the snapshots of machines, which nothing calls, the rest of
-- the command line, the artifact path, logging, and the socket loop of the DNS proxy. They are
-- input and output or calls of libraries; the Apple backend is external commands of macOS around
-- a helper.
mod Prelude
pub mod Core
pub mod Status
pub mod Agent
pub mod Server
pub mod Network
pub mod Firecracker
pub mod Cli
mod Tests
