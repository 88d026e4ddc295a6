-- ===== src/Diagnostics/Run/Contracts.antt =====
-- packages/baresync/src/generator/diagnostics.ts and schema/contract.ts: the diagnostics of a
-- contract that `defineSyncContract` made.
use baresync.Prelude.{
  String, true, Option, some, List, [], ◌∷◌, ◌++◌, map, ◌≡◌, refl, ◌∙◌, arith, eq_iff, any, any-map,
  any-weaken, All, All-append, ok, throw, Result,
}
use baresync.Casing.{camel_to_snake}
use baresync.Contract.{
  SyncedTableDefinition, SyncContract, GivenLimits, column_names, maps_scope, define_sync_contract,
}
use baresync.Contract.Laws.{IsSyncable, meta_of, contract_of, define_sync_contract-IsSyncable}
use baresync.Diagnostics.{
  error, on_table, count_all, SyncDiagnostic, check_missing_deleted_at, check_duplicate_table_name,
}
use baresync.Diagnostics.Emitted.{repeats-All, check_additive_change-All, report-All}
use baresync.Diagnostics.Scope.{is_spelling, check_missing_scope_column}
use baresync.Diagnostics.Columns.{check_additive_change}
use baresync.Diagnostics.ForeignKeys.{
  message, caught, schema_module, check_fk_cycle_and_external_fk,
}
use baresync.FkOrder.{OrderError, SyncTableOrder, compute_sync_table_order}
use baresync.Diagnostics.Run.{
  PairedDiagnosticTable, DiagnosticOptions, paired_table, paired_or, table_diagnostics, each_table,
  run_diagnostics,
}
use baresync.Diagnostics.Run.Checks.{
  IsElse, check_missing_primary_key-IsElse, check_unsupported_primary_key-IsElse,
  check_missing_row_state_columns-IsElse, check_missing_sync_updated_at-IsElse,
  check_missing_local_is_synced-IsElse, check_unsupported_column_type-IsElse,
  check_duplicate_field_name-IsElse, check_reserved_field_reused-IsElse,
  check_nullable_scope_column-IsElse, check_batteries_included_not_1_to_1-IsElse,
  check_large_text_field-IsElse, check_json_only_field-IsElse, check_missing_scope_watermark-IsElse,
  check_batteries_included_complex_mapping-IsElse,
}

-- A scope that `defineSyncContract` finds is one that the diagnostics find.
maps_scope-is_spelling :
    (def : SyncedTableDefinition)
    → any (maps_scope def.scope.field) def.table.columns ≡ true
    → any (is_spelling def.scope.field) (column_names def.table) ≡ true
maps_scope-is_spelling def h =
    any-map (is_spelling def.scope.field) (λ c. c.name) def.table.columns
    ∙ any-weaken (maps_scope def.scope.field) (λ c. is_spelling def.scope.field c.name)
        def.table.columns
        (λ c e. ground (
          arith,
          eq_iff (camel_to_snake def.scope.field) c.name,
          eq_iff c.name (camel_to_snake def.scope.field),
        ))
        h

table_diagnostics-IsElse :
    (pairs : List PairedDiagnosticTable) (def : SyncedTableDefinition)
    → IsSyncable def
    → All IsElse (table_diagnostics pairs def (meta_of def))
unfolding table_diagnostics check_missing_scope_column check_missing_deleted_at
table_diagnostics-IsElse pairs def h =
    let name = def.table.name in
    let columns = column_names def.table in
    rw (maps_scope-is_spelling def h.scope, h.deleted_at)
      (All-append IsElse _ _
        (All-append IsElse _ _
          (All-append IsElse _ _
            (All-append IsElse _ _
              (All-append IsElse _ _
                (All-append IsElse _ _
                  (All-append IsElse _ _
                    (All-append IsElse _ _
                      (All-append IsElse _ _
                        (All-append IsElse _ _
                          (All-append IsElse _ _
                            (All-append IsElse _ _
                              (All-append IsElse _ _
                                (All-append IsElse _ _
                                  (All-append IsElse _ _ (check_missing_primary_key-IsElse def name)
                                    (check_unsupported_primary_key-IsElse def name))
                                  tt)
                                tt)
                              (check_missing_row_state_columns-IsElse name columns))
                            (check_missing_sync_updated_at-IsElse def name columns))
                          (check_missing_local_is_synced-IsElse def name columns))
                        (check_unsupported_column_type-IsElse def name))
                      (check_duplicate_field_name-IsElse name columns))
                    (check_reserved_field_reused-IsElse def name))
                  (check_nullable_scope_column-IsElse def name))
                (check_batteries_included_not_1_to_1-IsElse (meta_of def) name))
              (check_large_text_field-IsElse def name))
            (check_json_only_field-IsElse def name))
          (check_missing_scope_watermark-IsElse def name
            (paired_or (paired_table name pairs) def.table)))
        (check_batteries_included_complex_mapping-IsElse def name))

abbrev pub all_tables :
    List PairedDiagnosticTable → List SyncedTableDefinition → List SyncDiagnostic
all_tables pairs [] = []
all_tables pairs (def ∷ defs) = table_diagnostics pairs def (meta_of def) ++ all_tables pairs defs

each_table-ok :
    (pairs : List PairedDiagnosticTable) (defs : List SyncedTableDefinition)
    → each_table pairs defs (map meta_of defs) ≡ ok (all_tables pairs defs)
unfolding each_table
each_table-ok pairs [] = refl
each_table-ok pairs (def ∷ defs) = rw (each_table-ok pairs defs) refl

all_tables-IsElse :
    (pairs : List PairedDiagnosticTable) (defs : List SyncedTableDefinition)
    → All IsSyncable defs
    → All IsElse (all_tables pairs defs)
all_tables-IsElse pairs [] h = tt
all_tables-IsElse pairs (def ∷ defs) h =
    All-append IsElse (table_diagnostics pairs def (meta_of def)) (all_tables pairs defs)
      (table_diagnostics-IsElse pairs def h.0) (all_tables-IsElse pairs defs h.1)

caught-IsElse : (order : Result OrderError SyncTableOrder) → All IsElse (caught order)
caught-IsElse (ok order) = tt
caught-IsElse (throw thrown) =
    report-All IsElse (λ table. (refl, refl)) (λ table. (refl, refl)) (message thrown)

check_fk-IsElse : (contract : SyncContract) → All IsElse (check_fk_cycle_and_external_fk contract)
unfolding check_fk_cycle_and_external_fk
check_fk-IsElse contract = caught-IsElse (
    compute_sync_table_order (schema_module contract.tables)
      (some (map (λ m. m.table_name) contract.tables_meta)))

check_duplicate_table_name-IsElse :
    (names : List String) → All IsElse (check_duplicate_table_name names)
unfolding check_duplicate_table_name
check_duplicate_table_name-IsElse names =
    repeats-All IsElse (on_table "SYNC_SCHEMA_DUPLICATE_TABLE_NAME" error) (λ n. (refl, refl))
      (count_all names [])

-- What `runDiagnostics` returns for a contract of `defineSyncContract`.
abbrev pub diagnostics_of : SyncContract → DiagnosticOptions → List SyncDiagnostic
diagnostics_of contract options =
    check_duplicate_table_name (map (λ m. m.table_name) contract.tables_meta)
    ++ check_fk_cycle_and_external_fk contract
    ++ check_additive_change (map (λ m. m.table_name) contract.tables_meta) options.previous_tables
    ++ all_tables options.paired_tables contract.tables

pub run_diagnostics-contract_of :
    (defs : List SyncedTableDefinition) (limits : Option GivenLimits) (options : DiagnosticOptions)
    → run_diagnostics (contract_of defs limits) options
      ≡ ok (diagnostics_of (contract_of defs limits) options)
unfolding run_diagnostics
run_diagnostics-contract_of defs limits options = rw (each_table-ok options.paired_tables defs) refl

-- For a contract that `defineSyncContract` has made, `runDiagnostics` returns a list, and no
-- diagnostic in it says that a scope column or the column `deleted_at` is missing: what the one has
-- accepted the other finds.
pub define_sync_contract-IsElse :
    (defs : List SyncedTableDefinition) (limits : Option GivenLimits) (contract : SyncContract)
    (options : DiagnosticOptions)
    → define_sync_contract defs limits ≡ ok contract
    → (ds : List SyncDiagnostic) × (run_diagnostics contract options ≡ ok ds) × All IsElse ds
define_sync_contract-IsElse defs limits contract options made =
    let (good, made_of) = (define_sync_contract-IsSyncable defs limits contract).0 made in
    let c = contract_of defs limits in
    let names = map (λ m. m.table_name) c.tables_meta in
    let duplicates = check_duplicate_table_name names in
    let keys = check_fk_cycle_and_external_fk c in
    let gone = check_additive_change names options.previous_tables in
    rw made_of (
      diagnostics_of c options,
      run_diagnostics-contract_of defs limits options,
      All-append IsElse (duplicates ++ keys ++ gone) (all_tables options.paired_tables defs)
          (All-append IsElse (duplicates ++ keys) gone
            (All-append IsElse duplicates keys (check_duplicate_table_name-IsElse names)
              (check_fk-IsElse c))
            (check_additive_change-All IsElse (λ n. (refl, refl)) names options.previous_tables))
          (all_tables-IsElse options.paired_tables defs good),
    )
