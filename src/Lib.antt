-- ===== src/Lib.antt =====
-- feather-flow extracts tables from operational databases into the bronze tables of a DuckDB
-- file. This library models the core of `feather extract` (how a table is planned, cut into
-- windows and loaded, and what the state database remembers of it, so that an extract that is
-- stopped can go on), of `feather run` (the incremental pipeline), and of the control plane that
-- records the runs of extractors.
--
-- The parts, and the files that model them:
-- - Windows: src/feather_flow/extract_windows.py. `plan_windows` and its two plans, with the
--   quoting of identifiers. Windows/PkRange and Windows/Dates are about the two plans,
--   Windows/Quoting about the text of a predicate.
-- - State: src/feather_flow/state.py. A table of the database is a dictionary or a list of
--   records, and a method of `StateManager` is a function on `Db`. State/Watermarks, Retry,
--   WindowLog, Overrides, Runs and Meta hold the operations; Backoff, Preserved, CommitLog,
--   Merging and Migration are about them.
-- - Planner: src/feather_flow/planner.py. `pick_plan` as a function of its arguments, cut into
--   one definition for each local variable; Planner/Columns holds the columns that it derives.
-- - Curation: src/feather_flow/curation.py. `resolve_source`, which finds the source that owns a
--   database.
-- - Destination: src/feather_flow/destinations/duckdb.py. `load_batched_append`, which replaces
--   one window of a bronze table in one transaction and logs the window in a second one. `World`
--   is the pair of database files.
-- - Extract: src/feather_flow/extract.py. `run_extract`, statement by statement: the check for a
--   missing destination, the resolution of the source, the detection of changes, the loop over
--   the windows that are not yet logged, and what is recorded of each outcome. Extract/Tables
--   holds the loop over the tables and what precedes it.
-- - Pipeline: src/feather_flow/pipeline.py. Pipeline has the boundary rows, which a run filters
--   by the hashes of the run before; Pipeline/Table the records that `run_table` reads,
--   Pipeline/Run the statements of `run_table`, and Pipeline/All its branches and `run_all`.
--   Boundary, Hashes, Outcomes, Skips and Failing are about runs. Destination/Incremental and
--   Destination/Full are the other loads of destinations/duckdb.py, `load_incremental`,
--   `load_full` and `load_append`.
-- - SchemaDrift: src/feather_flow/schema_drift.py, the columns that a source has gained, lost or
--   changed.
-- - DiscoverState: src/feather_flow/discover_state.py, the decision for each source of a
--   discovery and the renames that fingerprints suggest.
-- - Lifecycle: packages/feather-cdc-postgres/src/feather_cdc_postgres/lifecycle.py, the state
--   machine of a replicated relation.
-- - ControlPlane: packages/feather-control-plane/src/control_plane. ControlPlane/Store is
--   store.py, the tables of the control plane and what a record of the log does to them,
--   ControlPlane/Lease the lease, ControlPlane/Wal is wal.py, ControlPlane/Shipper shipper.py and
--   recovery.py, ControlPlane/Context run.py. Keys, Folds and Replay are about the records, Tails
--   about the log, Buffered about shipments, Holding about the lease, Emitted and Starting about
--   a run.
-- - Selection: packages/feather-cdc-postgres/src/feather_cdc_postgres/selectors.py, the relations
--   that a manifest selects of a catalog; Selection/Keys has the merge keys and the withheld
--   columns, Selection/Compile `compile`, and Selected and Targets are about its plan.
-- - Publication: publication.py of the same package, the reconciliation of a publication; Members
--   and Reconciled are about it.
-- - Transforms: src/feather_flow/transforms.py, the order of the silver and gold transforms by
--   their dependencies and the passes of `run_transforms`. Transforms/Execution holds what is
--   executed for a transform and for all of them; Ordered is about the order, Executed about what
--   a run reports.
-- - SchemaRegistry: schema_registry.py of the package for change data capture, the signature of a
--   relation and the drift between two signatures. Agreement is about signatures without drift,
--   Denied about denied columns.
-- - DriftScan: drift.py of the same package, what a run does about the drift of each relation, on
--   the signatures of SchemaRegistry and the states of Lifecycle. Untouched is about what the
--   scan of one relation leaves of the others, Held about a changed merge key.
-- - Common: dictionaries, integers, texts and dates of Python, exceptions as values (Results),
--   and statements that change a state and may raise (Action).
--
-- A run of the pipeline is a sequence of statements on the pair of database files too: it detects
-- changes, checks for drift, loads by the table's strategy, and writes the watermark. A record of
-- the control plane is first appended to the log of its run and then projected into the tables,
-- so that the log can be shipped again.
--
-- An extract reads the commit log of State, takes the windows of Windows (those that the planner
-- made, or the single one), and loads each by Destination, which writes the log again. An
-- exception is a value of `Result`; what was written before it stays written.
--
-- Parameters stand for what is not this program: the type that a copy of the package
-- pg_replication gives a column, the order that `graphlib` gives a graph, whether DuckDB fails at
-- the statement of a transform, whether a row satisfies a predicate's text, the sources with
-- their drivers, the clock, the character classes of Python's `re`, the rounded quotient of two
-- floats, the throughput's type with its division, and the texts of exceptions of the database.
-- Integers are unbounded, as Python's; `record_run` raises for a count of rows that the INTEGER
-- columns of its table do not hold. The one loop on fuel is that over the days of a range, which
-- is given one round more than the range has days.
--
-- Not modelled: logging, heartbeats, alerts, prompts and printing, the drivers of sources and
-- transports, the configuration's parser, the parsing of transform files, the checks of join
-- health and of bronze tables, the rest of discovery, the rows that a scan for drift writes into
-- the schema registry and its last reconciliation, the other modules of the package for change
-- data capture, and of the control plane the creation of its schema and the thread that renews a
-- lease, whose call is a step of the theorem on leases.
pub mod Common
pub mod Publication
pub mod Selection
pub mod Transforms
pub mod ControlPlane
pub mod Windows
pub mod State
pub mod Planner
pub mod Curation
pub mod Destination
pub mod DriftScan
pub mod Extract
pub mod Lifecycle
pub mod Pipeline
pub mod SchemaDrift
pub mod SchemaRegistry
pub mod DiscoverState
