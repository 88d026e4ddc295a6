-- ===== src/Generator.antt =====
-- packages/baresync/src/generator/config.ts and the first half of generator/index.ts: the
-- configuration of the generator, and the contract that is built of a pair of schemas. Drizzle's
-- tables are those of Tables. The file system and the loading of a schema module are parameters. A
-- record of JavaScript is the list of its entries, in the order in which `Object.entries` lists them.
pub mod Platform
pub mod Columns
pub mod Formatting
pub mod Artifacts
pub mod Writing
pub mod Pairing
pub mod Performing
pub mod Failing
pub mod Written
pub mod Entries
pub mod Numbered
pub mod PosixPaths
pub mod Examples
mod Tests
use baresync.Prelude.{
  ℕ, String, Bool, true, false, ◌||◌, Option, none, some, List, [], ◌∷◌, map, ◌==◌, if◌then◌else◌,
  has, add, Result, ok, throw, ◌>>=◌, ◌>>◌,
}
use baresync.Tables.{Table}
use baresync.Casing.{camel_to_snake}
use baresync.Contract.{
  SyncContract, SyncedTableDefinition, GivenLimits, ContractError, by_name, synced_table,
  define_sync_contract, column_names,
}
use baresync.FkOrder.{OrderError}
use baresync.Diagnostics.{SyncDiagnostic}
use baresync.Diagnostics.Run.{PairedDiagnosticTable}

-- The type guard of a configuration asks only that the field `contract` is there: it can hold
-- `undefined`.
pub record GeneratorConfig : Type 0 where
  pub contract : Option SyncContract
  pub output_dir : String

pub record SyncConfigTableOptions : Type 0 where
  pub local_only_columns : Option (List String)
  pub scope_column : String
  pub server_only_columns : Option (List String)

-- The field `tables` is a record: an export name can stand in it with `undefined`.
pub record PairedSyncGeneratorConfig : Type 0 where
  pub api_synced_schema_path : String
  pub limits : Option GivenLimits
  pub local_synced_schema_path : String
  pub output_dir : String
  pub tables : List (String × Option SyncConfigTableOptions)

pub data GeneratorError : Type 0 where
  api_schema_not_found local_schema_not_found : (path : String) → GeneratorError
  not_loaded : (path : String) → GeneratorError
  missing_options missing_local missing_api : (export_name : String) → GeneratorError
  unexpected_local_only unexpected_server_only : (export_name column : String) → GeneratorError
  refused : ContractError → GeneratorError
  no_contract : GeneratorError
  unmatched_meta : GeneratorError
  diagnostics_failed : List SyncDiagnostic → GeneratorError
  unordered : OrderError → GeneratorError
  not_written : (path : String) → GeneratorError
  not_formatted : (command : String) → GeneratorError
  out_of_fuel : GeneratorError

unfoldable pub define_sync_config :
    (String → Bool) → PairedSyncGeneratorConfig → Result GeneratorError PairedSyncGeneratorConfig
define_sync_config exists input =
    if exists input.api_synced_schema_path
    then (if exists input.local_synced_schema_path
        then ok input
        else throw (local_schema_not_found input.local_synced_schema_path))
    else throw (api_schema_not_found input.api_synced_schema_path)

-- `namesWithColumnAliases`, from the set that its loop has filled so far.
unfoldable pub add_aliases : List String → List String → List String
unfolding add camel_to_snake
add_aliases [] aliases = aliases
add_aliases (name ∷ names) aliases =
    add_aliases names (add (camel_to_snake name) (add name aliases))

unfoldable pub names_with_column_aliases : List String → List String
unfolding add_aliases
names_with_column_aliases names = add_aliases names []

-- A loop that throws at the first column that is in neither set.
unfoldable pub each_expected :
    (String → GeneratorError)
    → List String
    → List String
    → List String
    → Result GeneratorError (Unit {0})
unfolding has
each_expected unexpected [] others allowed = ok tt
each_expected unexpected (column ∷ columns) others allowed =
    let rest = each_expected unexpected columns others allowed in
    if has column others || has column allowed then rest else throw (unexpected column)

unfoldable pub validate_paired_table_columns :
    (api_table : Table) (export_name : String) (local_only : List String) (local_table : Table)
    (server_only : List String)
    → Result GeneratorError (Unit {0})
unfolding each_expected names_with_column_aliases
validate_paired_table_columns api_table export_name local_only local_table server_only = do
  each_expected (unexpected_local_only export_name) (column_names local_table)
      (column_names api_table) (names_with_column_aliases local_only)
  each_expected (unexpected_server_only export_name) (column_names api_table)
      (column_names local_table) (names_with_column_aliases server_only)

-- What a module exports: its names, each with the table that it is, if it is one.
abbrev pub Exports : Type 0
Exports = List (String × Option Table)

-- `schema[exportName]` of the record that `loadSchemaModule` makes of the exports that are tables.
unfoldable pub exported_table : String → Exports → Option Table
exported_table name [] = none
exported_table name ((key, value) ∷ exports) =
    let later = exported_table name exports in if key == name then value else later

-- A value that throws where it is absent.
abbrev pub required_value {ℓ} : {A : Type ℓ} → GeneratorError → Option A → Result GeneratorError A
required_value error none = throw error
required_value error (some value) = ok value

-- `import(path.resolve(schemaPath))`, which throws where it gives `none`.
abbrev pub load_schema_module : (String → Option Exports) → String → Result GeneratorError Exports
load_schema_module import_schema path = required_value (not_loaded path) (import_schema path)

-- `given ?? default`
abbrev pub names_or : List String → Option (List String) → List String
names_or default none = default
names_or default (some names) = names

abbrev pub of_contract {ℓ} : {A : Type ℓ} → Result ContractError A → Result GeneratorError A
of_contract (ok made) = ok made
of_contract (throw error) = throw (refused error)

pub record PairedTable : Type 0 where
  pub api_table : Table
  pub export_name : String
  pub local_table : Table

-- What the callback of `Object.entries(config.tables).map` does with one entry: the pair that it
-- pushes and the definition that it returns.
unfoldable pub build_paired_table :
    (local_module api_module : Exports)
    → String
    → Option SyncConfigTableOptions
    → Result GeneratorError (PairedTable × SyncedTableDefinition)
unfolding exported_table validate_paired_table_columns synced_table
build_paired_table local_module api_module export_name none = throw (missing_options export_name)
build_paired_table local_module api_module export_name (some options) = do
  local_table ← required_value (missing_local export_name) (exported_table export_name local_module)
  api_table ← required_value (missing_api export_name) (exported_table export_name api_module)
  let local_only = names_or ("isSynced" ∷ []) options.local_only_columns
  let server_only = names_or ("syncUpdatedAt" ∷ []) options.server_only_columns
  validate_paired_table_columns api_table export_name local_only local_table server_only
  def ←
      of_contract (
        synced_table local_table (by_name options.scope_column) (some local_only)
          (some server_only))
  ok (record { api_table = api_table; export_name = export_name; local_table = local_table }, def)

unfoldable pub build_paired_tables :
    (local_module api_module : Exports)
    → List (String × Option SyncConfigTableOptions)
    → Result GeneratorError (List (PairedTable × SyncedTableDefinition))
unfolding build_paired_table
build_paired_tables local_module api_module [] = ok []
build_paired_tables local_module api_module ((export_name, options) ∷ tables) = do
  built ← build_paired_table local_module api_module export_name options
  later ← build_paired_tables local_module api_module tables
  ok (built ∷ later)

pub record PairedContractBuild : Type 0 where
  pub contract : SyncContract
  pub tables : List PairedTable

unfoldable pub build_paired_contract_from_paired_config :
    (String → Option Exports)
    → PairedSyncGeneratorConfig
    → Result GeneratorError PairedContractBuild
unfolding build_paired_tables define_sync_contract
build_paired_contract_from_paired_config import_schema config = do
  local_module ← load_schema_module import_schema config.local_synced_schema_path
  api_module ← load_schema_module import_schema config.api_synced_schema_path
  built ← build_paired_tables local_module api_module config.tables
  contract ← of_contract (define_sync_contract (map (λ pair. pair.1) built) config.limits)
  ok (record { contract = contract; tables = map (λ pair. pair.0) built })

-- The pairs as the diagnostics take them.
abbrev pub diagnostic_pairs : List PairedTable → List PairedDiagnosticTable
diagnostic_pairs tables =
    map (λ pair. record { api_table = pair.api_table; local_table = pair.local_table }) tables
