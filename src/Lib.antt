-- ===== src/Lib.antt =====
-- Kernmux is a control plane for Multikernel Linux. Its daemon (crates/kernmux-daemon) plans
-- changes of the host on an authoritative snapshot, runs the tool Kerf, reads the host again,
-- and reports the outcome as an asynchronous operation. This library models the daemon's core
-- logic.
--
-- The parts, and how they correspond to the code:
--   * Api: the types of crates/kernmux-api/src/v1.rs, by their names; Api/Compatibility is
--     `ReleaseCompatibilityManifest::evaluate`. Strings are lists of bytes, u32 and u64 values
--     are natural numbers, and `==` of enums is a Boolean test.
--   * Operations: crates/kernmux-daemon/src/operations.rs. The registry is a record, each
--     method a function from it to the registry after the call and the method's result. The mutex
--     makes every method one step, so threads that share the registry are a sequence of calls,
--     `Call`, `step` and `run`. Saturating counters keep their bound, 2^64 - 1.
--   * Placement and Lifecycle: crates/kernmux-daemon/src/placement.rs and
--     crates/kernmux-daemon/src/lifecycle.rs, the checks of a request against a snapshot and the
--     Kerf command and expected state that it gives. Fallible code returns `Result`, with the
--     source's errors.
--   * Executor: `LifecycleExecutor` of crates/kernmux-daemon/src/lifecycle_executor.rs. The
--     traits KerfRunner and SnapshotRefresher are records of functions on a world that both may
--     change, and are parameters; nothing is assumed of them.
--   * ResourcePool: crates/kernmux-daemon/src/resource_pool.rs, on the same two parameters.
--     `Iterator::sum` wraps at 64 bits, as in a release build.
--   * Scheduler: crates/kernmux-daemon/src/scheduler.rs. A worker thread's calls of the
--     registry, a task's panic (no result), a failed spawn and the cancellation flags seen are
--     arguments or separate calls. The loop of `reap_finished` is a recursion on fuel, as much as
--     there are workers.
--   * Inventory: crates/kernmux-daemon/src/inventory.rs with the observation types of
--     crates/kernmux-core/src/host.rs and crates/kernmux-core/src/multikernel.rs. `refresh` of
--     InventoryService keeps the last good snapshot; the source acts on a world, and
--     `inventory_refresher` makes the service the executors' SnapshotRefresher. The probes are
--     functions that the source takes.
--   * Security: crates/kernmux-daemon/src/security.rs. The policy is a record; `acquire` and `drop`
--     of the limiter are functions of its state.
--   * Images: crates/kernmux-daemon/src/image_store.rs. Ids, the inspection of disk images, and the
--     catalog; the store under the catalog is a record of functions on a world.
--   * HostApi: crates/kernmux-daemon/src/host_api.rs. Routes and paths; Service has the state of
--     `HostApi` (Types), the image policy (Files), the submissions (Submission), the reads (Reads),
--     the mutations (Mutations), `dispatch` (Dispatch), the bodies of worker threads (Tasks) and the
--     upgrade to a console (Consoles). Requests says, by method and path, what one request may do
--     (Meaning reads the paths). serde_json is the record `Json`, the file system, the storage
--     devices and the console proxy are records of functions; a clock reading, and whether a
--     thread can be spawned, come with each call. The mutexes make each request one step.
--   * Transport: crates/kernmux-daemon/src/transport.rs. `handle_request` and the upgrade over any
--     LocalApi, and `host_api`, the instance that the daemon serves.
--   * Prelude: lists, results, `BTreeSet` as an increasing list, decimal printing, 64-bit
--     arithmetic.
--   * Sample: a small host; each part has a module Tests of runs and instances on it.
--
-- Decimal printing recurs on fuel, one more than the number, which its reader gives back.
--
-- The parts meet as in the daemon: Transport authorizes a request with Security and hands it to
-- HostApi, which takes a permit of Security's limiter and submits the mutation to Scheduler; the task
-- runs Executor or ResourcePool, which plan with Lifecycle and read the host through Inventory, and
-- Operations records its end.
--
-- Not modelled: the probes that read sysfs, the process runner, the files under the image store,
-- console sessions, sockets and the reading of HTTP bytes, the command line and the browser gateway;
-- and of the parts above, Display texts, serialization, waiting on a condition variable and joining
-- of threads.
pub mod Prelude
pub mod Api
pub mod Operations
pub mod Placement
pub mod Lifecycle
pub mod Sample
pub mod Executor
pub mod ResourcePool
pub mod Scheduler
pub mod Security
pub mod Images
pub mod Inventory
pub mod HostApi
pub mod Transport
