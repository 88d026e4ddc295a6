-- ===== src/Lib.antt =====
-- baresync keeps a local SQLite database of a client in step with a server. This library models the
-- TypeScript package packages/baresync: how a push is ordered, applied once and acknowledged, how a
-- pull is answered, how the order of the tables is computed from their foreign keys, which schemas are
-- refused, and what the generator and its command line write for one.
--
-- Prelude holds the shared helpers: tests on native numbers, measured lists, sets of names, and the
-- results of code that throws. An `Error` that the source throws is a constructor of an error type,
-- with the values that its message is made of.
--
-- Tables is the part of a Drizzle schema that the code reads: tables with their columns and foreign
-- keys (`getTableConfig`; Drizzle itself is not part of the repository).
--
-- FkOrder is packages/baresync/src/generator/fk-order.ts. `build_graph` is `buildGraph`, with one
-- function per loop, and `topological_sort` is `topologicalSort`, whose three variables are the
-- record `SortState`. The recursion of `visit` runs on fuel, one more than the number of nodes: each
-- call below another has one more table on the path, so that much is enough for every graph.
-- FkOrder/Relations says what an order is; Order, Errors, Acyclic, Building, External and Required
-- hold the proofs, and Computed puts them together for `compute_sync_table_order`.
--
-- Service is packages/baresync/src/server/service.ts, in parts: Changes orders the changes of a push
-- (`orderPushChanges`, `orderDeleteChanges`; the sort of the platform is an insertion sort here,
-- which is stable, as the platform's is), Cursor reads and prints cursors (the conversions between
-- texts and numbers are the parameter `Numbers`), Latest picks the row for a cursor (`localeCompare`
-- is a parameter), Rows sorts out the rows of a pull, Envelope checks a request, and Errors answers
-- an error, with `getErrorStatus` of packages/baresync/src/server/handlers.ts.
--
-- Idempotency is packages/baresync/src/server/idempotency.ts. The database is the parameter
-- `BatchTable` of Idempotency/Table: its operations are the statements that the code sends, its laws
-- what SQL says of them, the unique index of packages/baresync/src/schema/server-schema.ts among
-- them; Idempotency/ListTable meets them with lists. `run_guard` is `runGuard`: a function of the
-- table and of the world that the callback changes. `Clock` gives the three times that a run reads.
-- In `run_guard` runs follow one another, and no statement fails but the insert of the reservation.
-- Idempotency/Runs takes the same code apart at its awaits: any number of runs for one client and key
-- share the table, each step is one statement of one run, any statement may fail, and the callback is
-- one action on the world. Idempotency/Cleanup is `cleanupSyncBatchRequests`.
--
-- Client is the outbox of packages/baresync/src/tauri/client.ts and
-- packages/baresync/src/schema/local-schema.ts. The local database is the parameter `Outbox`, with the
-- laws of an insert with ON CONFLICT; Client/Coalescing sees the pending rows as a map. The commands
-- that the client sends to the Rust plugin are not modelled.
--
-- Repository is packages/baresync/src/server/drizzle.ts. The reads and writes of a table are the
-- application's, the fields of `TableConfig`; what has been written before a throw stays written.
-- `apply_push_changes` is `applyPushChanges`, one function per loop; Repository/Answers holds
-- `load_pull_changes` and `load_sync_status`. Tables are a list of names and a function on them, in
-- the order of `Object.keys`. The reads of one answer see one state of the tables and do not fail, and
-- the clock is read at an argument. `requiredString` and its like, which only applications call, are left out.
--
-- Handlers is `createPushHandler` of packages/baresync/src/server/handlers.ts with
-- `decodeSyncRequest`. `prepare_push` is the handler up to the scope, `push_prepared` the rest; the
-- parse and hash of a request and the application's two callbacks are parameters, and an error's
-- text that quotes the request is shortened to its fixed part. Handlers/Reading is
-- `createStatusHandler` and `createPullHandler`; Handlers/Reading/Agreeing runs them over Repository.
--
-- Chunking is packages/baresync/src/server/chunking.ts, for whole numbers. The loop of `chunkArray`
-- runs on fuel, the number of the rows, since each round takes a row or more.
--
-- Casing is `camelToSnake` and `snakeToCamel`, which three files declare alike. Contract is
-- packages/baresync/src/schema/synced-table.ts and packages/baresync/src/schema/contract.ts:
-- `synced_table` resolves the scope of a table, `define_sync_contract` checks the tables of a contract
-- and says what each is.
--
-- Diagnostics is packages/baresync/src/generator/diagnostics.ts without its texts for people, one
-- function per check: keys, columns and repeated names in Diagnostics itself, column types and gone
-- tables in Diagnostics/Columns, the scope in Diagnostics/Scope, the foreign keys in
-- Diagnostics/ForeignKeys, which runs `compute_sync_table_order` and matches the text of its error
-- with the four patterns of the source, written out as functions. Diagnostics/Run is
-- `runDiagnostics`. Emitted and Run/Checks say what holds of whatever a check makes.
--
-- JsObject is the order in which JavaScript lists the keys of an object, array indices first, for the
-- objects that the diagnostics and the generator build, and `Object.fromEntries`.
--
-- Texts is the match of a text at the head of another one, for the patterns and the arguments.
--
-- Generator is packages/baresync/src/generator/config.ts and the contracts that generator/index.ts
-- builds of a pair of schemas. Generator/Artifacts is outputs.ts and manifest.ts: the files of a
-- contract. Generator/Writing is the rest of index.ts: what is written, and when. Generator/Formatting
-- is formatter.ts. A piece of this code that acts is a `Run`: the list of its actions, in their order,
-- and how it ends. What Node provides (paths, the file system, the clock, programs that are started, the import of a module) is
-- the record `Platform`, a parameter; `perform` writes the files, and the file system may refuse each
-- directory, file and copy. The search of a directory and its parents recurses on fuel, one more than the
-- length of the absolute path that it starts at, which is enough where `dirname` shortens an absolute
-- path or gives it back; Generator/PosixPaths is a `dirname` and a `resolve` that do, for the tests.
--
-- Cli is packages/baresync/src/cli/generator.ts: Cli/Arguments reads the arguments, Cli/Entries finds
-- the configurations that a module exports, Cli/Commands is `generate`, Cli/Doctor is `doctor`, and
-- Cli/Generate is `runGenerate`. They run the diagnostics and the generator of the modules above. A
-- configuration may lack the contract that its field is for, as the type guard of the source lets it.
--
-- Not modelled: JSON and SHA-256, which the platform provides; the texts of diagnostics; the
-- installer of skills; the scaffold of packages/create-baresync; the Rust crates; the documentation
-- site and the examples.
pub mod Prelude
pub mod Tables
pub mod FkOrder
pub mod Service
pub mod Idempotency
pub mod Casing
pub mod Chunking
pub mod Cli
pub mod Client
pub mod Contract
pub mod Diagnostics
pub mod Generator
pub mod Handlers
pub mod JsObject
pub mod Repository
pub mod Texts
