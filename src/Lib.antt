-- ===== src/Lib.antt =====
-- AgentStack Manager: a verification library.
--
-- The program plans, reviews and applies the installation of developer tools. A catalog names the
-- components and profiles; the inventory says what a machine has; the planner makes a plan of actions
-- from both and a request; a reviewed plan is applied once, under a lease, by the runner, whose child
-- processes write into bounded buffers.
--
--   - Prelude and its children: shared names, lists, integers, results, texts as code points, maps and
--     sets with string keys, stable sorting, strict total orders.
--   - Model: internal/model/model.go, the records of the catalog, the inventory, plans and transactions.
--   - Version: internal/version/semver.go. `Parse`, `Compare` and `Compatible` are `parse`,
--     `compare_versions` and `compatible`; Order, Identifiers, Parsing and Range hold the proofs.
--   - ProcessControl: internal/processctl/limits.go, the limits of a process tree.
--   - Catalog: internal/catalog/catalog.go. `Validate` is `validate` (Catalog/Validate), from Lock
--     (`validateSupplyChainLock`), Acquisition (`validateRouterAcquisition` and the exact versions of
--     packages) and Cycles (`validateDependencyCycles`). Grounded, Components, Sound and Pinned hold the
--     proofs. What Go's regular expressions and letter case say is a record of functions, `Library`.
--   - ResourceHub: internal/resourcehub. `PlanSync` is `plan_sync` (Planning, from Choosing), and
--     `ApplySync` is `apply_sync` (Syncing, from Checks, Moving and Applying). Files has fs.go, Types
--     types.go, Destinations the destination of a resource, and Hub what else is read and written.
--     Disk says what is relied on of the disk; Justified, Planned, Transfer, Rollback, Moves, Atomic,
--     Admission and AllOrNothing hold the proofs, SmallDisk a disk for tests.
--   - ChildPool: internal/mcp/child_pool.go. Sections has what each operation does while it holds the
--     mutex, and Steps the callers that go through them in any order; Invariant, Kept and Safety hold
--     the proofs.
--   - PathEnv: internal/pathenv/path.go, in Segments; Laws and Merged hold the proofs.
--   - Planner: internal/planner/planner.go. `Build` is `build` (Planner/Build), from Selection
--     (inclusions, exclusions, `expandDependencies`), Providers (`reconcileActiveProviders`), Actions
--     (the action of each component, the order of tiers and names) and Visits (`orderByDependencies`).
--     Closure, Placement, Topological, Selected, Run, Sound, Safety and Total hold the
--     proofs; OnValid is about catalogs that `Validate` accepts.
--   - Runner: internal/runner/runner.go. Invocations has `invocationFor`; Engine one action of
--     `Engine.Apply`, and Apply its journal and its loop. Steps, Journal, Status and Effects hold the
--     proofs. What the engine calls through interfaces are the fields of its record, over any state.
--   - State: internal/state/store.go, saved plans and transactions (Store), and what a transaction
--     leaves on disk (Persisted). Reading and writing files are the fields of a record.
--   - ReviewedPlan: internal/reviewedplan/executor.go. `Executor.Execute` is `execute`, in the steps
--     between its early returns; Authorized, Passed, Applied, Gone and Once hold the proofs.
--   - Capture: the buffers of internal/supervisor/runtime.go, internal/runner/limit.go and
--     internal/mcp/child_buffer.go, and `Runtime.Run`.
--
-- Go's maps are association lists or lists of keys. A Go map is walked in any order; the list stands for
-- the order of one walk, and the theorems hold for every list. Texts that the code takes apart are lists
-- of code points; identifiers that it only compares are native strings.
--
-- Fuel: `expandDependencies` takes one round for each element of its queue; the fuel is the number of
-- selected components and of dependencies in the catalog. `orderByDependencies` nests one call for each
-- action that no call under way has marked; the fuel is one more than the number of actions.
-- `validateDependencyCycles` nests one call for each component that is not marked; the fuel is one more
-- than the number of components.
--
-- The loops over the arguments of a router command cut a prefix off by its characters where Go slices
-- bytes; the prefixes are ASCII.
--
-- The search for a free name of a backup has no end in the program; it takes `attempts` rounds here, and
-- a search that finds none counts as a failed call.
--
-- Not modelled: what runs regular expressions (`Extract`), processes, files and the network, the command
-- line and the user interface, and the components that the manifest lists as not modelled. The clock is
-- an argument.
pub mod Prelude
pub mod Capture
pub mod Version
pub mod Model
pub mod ProcessControl
pub mod ResourceHub
pub mod ChildPool
pub mod PathEnv
pub mod Catalog
pub mod Planner
pub mod Runner
pub mod State
pub mod ReviewedPlan
