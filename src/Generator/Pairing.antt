-- ===== src/Generator/Pairing.antt =====
-- packages/baresync/src/generator/index.ts, `buildPairedContractFromPairedConfig`: what a contract
-- that it builds is made of.
use baresync.Prelude.{
  String, Option, none, some, List, [], ◌∷◌, map, ◌≡◌, refl, find, All, Result, ok, throw,
  >>=-eq-ok, >>-eq-ok, ok-injective,
}
use baresync.Contract.{
  SyncedTableDefinition, ContractError, names_scope, by_name, synced_table, define_sync_contract,
  column_names,
}
use baresync.Contract.Laws.{
  synced_table-scope, IsSyncable, contract_of, define_sync_contract-IsSyncable,
}
use baresync.Generator.{
  SyncConfigTableOptions, PairedSyncGeneratorConfig, GeneratorError, Exports, exported_table,
  load_schema_module, required_value, names_or, of_contract, PairedTable,
  validate_paired_table_columns, build_paired_table, build_paired_tables, PairedContractBuild,
  build_paired_contract_from_paired_config,
}
use baresync.Generator.Columns.{IsExpected, validate_paired_table_columns-IsExpected}

-- The pair and the definition of an entry of the configuration: both modules export a table under
-- its name, and the definition is of the local one.
pub record IsPair (local_module api_module : Exports)
    (entry : String × Option SyncConfigTableOptions) (built : PairedTable × SyncedTableDefinition)
    : Type 0 where
  pub options : SyncConfigTableOptions
  pub given : entry.1 ≡ some options
  pub named : built.0.export_name ≡ entry.0
  pub local : exported_table entry.0 local_module ≡ some built.0.local_table
  pub api : exported_table entry.0 api_module ≡ some built.0.api_table
  pub defined : built.1.table ≡ built.0.local_table
  pub scope :
      find (names_scope options.scope_column) built.0.local_table.columns
      ≡ some built.1.scope.column
  pub local_columns :
      All
        (IsExpected
          (column_names built.0.api_table)
          (names_or ("isSynced" ∷ []) options.local_only_columns))
        (column_names built.0.local_table)
  pub api_columns :
      All
        (IsExpected
          (column_names built.0.local_table)
          (names_or ("syncUpdatedAt" ∷ []) options.server_only_columns))
        (column_names built.0.api_table)

pub data ArePairs (local_module api_module : Exports)
    : List (String × Option SyncConfigTableOptions)
      → List (PairedTable × SyncedTableDefinition)
      → Type 0 where
  no_pair : ArePairs local_module api_module [] []
  one_pair :
      {entry : String × Option SyncConfigTableOptions} {built : PairedTable × SyncedTableDefinition}
      {entries : List (String × Option SyncConfigTableOptions)}
      {pairs : List (PairedTable × SyncedTableDefinition)}
      → IsPair local_module api_module entry built
      → ArePairs local_module api_module entries pairs
      → ArePairs local_module api_module (entry ∷ entries) (built ∷ pairs)

of_contract-ok {ℓ} :
    {A : Type ℓ} (made : Result ContractError A) (a : A) → of_contract made ≡ ok a → made ≡ ok a
of_contract-ok (ok b) a e = rw (ok-injective e) refl
of_contract-ok (throw error) a e = cc

required_value-ok {ℓ} :
    {A : Type ℓ} (error : GeneratorError) (o : Option A) (a : A)
    → required_value error o ≡ ok a
    → o ≡ some a
required_value-ok error none a e = cc
required_value-ok error (some b) a e = rw (ok-injective e) refl

build_paired_table-IsPair :
    (local_module api_module : Exports) (export_name : String)
    (options : Option SyncConfigTableOptions) (built : PairedTable × SyncedTableDefinition)
    → build_paired_table local_module api_module export_name options ≡ ok built
    → IsPair local_module api_module (export_name, options) built
unfolding build_paired_table
build_paired_table-IsPair local_module api_module export_name none built e = cc
build_paired_table-IsPair local_module api_module export_name (some options) built e =
    let (local_table, local, e1) =
      >>=-eq-ok (required_value _ (exported_table export_name local_module)) _ e in
    let (api_table, api, e2) =
      >>=-eq-ok (required_value _ (exported_table export_name api_module)) _ e1 in
    let local_only = names_or ("isSynced" ∷ []) options.local_only_columns in
    let server_only = names_or ("syncUpdatedAt" ∷ []) options.server_only_columns in
    let (_, passed, e3) =
      >>-eq-ok
        (validate_paired_table_columns api_table export_name local_only local_table server_only) _
        e2 in
    let (def, made, e4) =
      >>=-eq-ok
        (of_contract (
          synced_table local_table (by_name options.scope_column) (some local_only)
            (some server_only)))
        _ e3 in
    let (column, scope, same) =
      synced_table-scope local_table options.scope_column (some local_only) (some server_only) def
        (of_contract-ok _ def made) in
    let accepted =
      (validate_paired_table_columns-IsExpected api_table export_name local_only local_table
          server_only).0
        passed in
    rw (← ok-injective e4) (record {
      options = options;
      given = refl;
      named = refl;
      local = required_value-ok _ _ local_table local;
      api = required_value-ok _ _ api_table api;
      defined = rw same refl;
      scope = rw same scope;
      local_columns = accepted.0;
      api_columns = accepted.1;
    })

build_paired_tables-ArePairs :
    (local_module api_module : Exports) (tables : List (String × Option SyncConfigTableOptions))
    (built : List (PairedTable × SyncedTableDefinition))
    → build_paired_tables local_module api_module tables ≡ ok built
    → ArePairs local_module api_module tables built
unfolding build_paired_tables
build_paired_tables-ArePairs local_module api_module [] built e = rw (← ok-injective e) no_pair
build_paired_tables-ArePairs local_module api_module ((export_name, options) ∷ tables) built e =
    let (first, e1, rest) =
      >>=-eq-ok (build_paired_table local_module api_module export_name options) _ e in
    let (later, e2, same) = >>=-eq-ok (build_paired_tables local_module api_module tables) _ rest in
    rw (← ok-injective same) (
      one_pair (build_paired_table-IsPair local_module api_module export_name options first e1)
        (build_paired_tables-ArePairs local_module api_module tables later e2))

-- A contract that is built of a paired configuration: both schema modules load, and each entry of the
-- configuration has options, a table of its name in both modules, a column for its scope, and no
-- column in one table alone that the options do not name. The contract is that of the local tables in
-- the order of the entries, each of which is syncable.
pub build_paired_contract-ArePairs :
    (import_schema : String → Option Exports) (config : PairedSyncGeneratorConfig)
    (build : PairedContractBuild)
    → build_paired_contract_from_paired_config import_schema config ≡ ok build
    → (local_module api_module : Exports) × (pairs : List (PairedTable × SyncedTableDefinition))
      × (import_schema config.local_synced_schema_path ≡ some local_module)
      × (import_schema config.api_synced_schema_path ≡ some api_module)
      × ArePairs local_module api_module config.tables pairs
      × (build.tables ≡ map (λ pair. pair.0) pairs)
      × (build.contract ≡ contract_of (map (λ pair. pair.1) pairs) config.limits)
      × All IsSyncable (map (λ pair. pair.1) pairs)
unfolding build_paired_contract_from_paired_config
build_paired_contract-ArePairs import_schema config build e =
    let (local_module, e1, rest1) =
      >>=-eq-ok (load_schema_module import_schema config.local_synced_schema_path) _ e in
    let (api_module, e2, rest2) =
      >>=-eq-ok (load_schema_module import_schema config.api_synced_schema_path) _ rest1 in
    let (pairs, e3, rest3) =
      >>=-eq-ok (build_paired_tables local_module api_module config.tables) _ rest2 in
    let (contract, made, same) =
      >>=-eq-ok (of_contract (define_sync_contract (map (λ pair. pair.1) pairs) config.limits)) _
        rest3 in
    let (syncable, is_contract) =
      (define_sync_contract-IsSyncable (map (λ pair. pair.1) pairs) config.limits contract).0
        (of_contract-ok _ contract made) in
    rw (← ok-injective same) (
      local_module,
      api_module,
      pairs,
      required_value-ok _ _ local_module e1,
      required_value-ok _ _ api_module e2,
      build_paired_tables-ArePairs local_module api_module config.tables pairs e3,
      refl,
      is_contract,
      syncable,
    )
