-- ===== src/Diagnostics/Run.antt =====
-- packages/baresync/src/generator/diagnostics.ts, `runDiagnostics`: all checks, in the source's order.
pub mod Checks
pub mod Contracts
pub mod Ordering
pub mod Clean
mod Tests
use baresync.Prelude.{
  String, Bool, Option, none, some, List, [], ◌∷◌, ◌++◌, map, ◌==◌, if◌then◌else◌, Result, ok,
  throw, ◌>>=◌,
}
use baresync.Tables.{Table}
use baresync.Contract.{SyncContract, SyncedTableDefinition, SyncContractTableMeta}
use baresync.Diagnostics.{
  SyncDiagnostic, check_missing_primary_key, check_unsupported_primary_key,
  check_missing_deleted_at, check_missing_row_state_columns, check_missing_sync_updated_at,
  check_missing_local_is_synced, check_duplicate_table_name, check_duplicate_field_name,
}
use baresync.Diagnostics.Columns.{
  check_unsupported_column_type, check_reserved_field_reused, check_large_text_field,
  check_json_only_field, check_additive_change,
}
use baresync.Diagnostics.Scope.{
  check_missing_scope_column, check_nullable_scope_column, check_batteries_included_not_1_to_1,
  check_missing_scope_watermark, check_batteries_included_complex_mapping,
}
use baresync.Diagnostics.ForeignKeys.{check_fk_cycle_and_external_fk}

pub record PairedDiagnosticTable : Type 0 where
  pub api_table : Table
  pub local_table : Table

pub record DiagnosticOptions : Type 0 where
  pub paired_tables : List PairedDiagnosticTable
  pub previous_tables : Option (List String)

-- `pairedTablesByName.get(name)`: the last pair for a name counts.
unfoldable pub paired_table : String → List PairedDiagnosticTable → Option Table
paired_table name [] = none
paired_table name (pair ∷ pairs) = elim (paired_table name pairs) [
  | some table ↦ some table
  | none ↦ if pair.local_table.name == name then some pair.api_table else none
]

-- `pairedTablesByName.get(tableName) ?? def.table`
abbrev pub paired_or : Option Table → Table → Table
paired_or none table = table
paired_or (some paired) table = paired

-- The body of the loop over the tables.
unfoldable pub table_diagnostics :
    List PairedDiagnosticTable → SyncedTableDefinition → SyncContractTableMeta → List SyncDiagnostic
unfolding check_missing_primary_key check_unsupported_primary_key check_missing_scope_column
    check_missing_deleted_at check_missing_row_state_columns check_missing_sync_updated_at
    check_missing_local_is_synced check_unsupported_column_type check_duplicate_field_name
    check_reserved_field_reused check_nullable_scope_column check_batteries_included_not_1_to_1
    check_large_text_field check_json_only_field paired_table check_missing_scope_watermark
    check_batteries_included_complex_mapping
table_diagnostics pairs def meta =
    let table_name = meta.table_name in
    let columns = meta.columns in
    check_missing_primary_key def table_name
    ++ check_unsupported_primary_key def table_name
    ++ check_missing_scope_column def table_name columns
    ++ check_missing_deleted_at table_name columns
    ++ check_missing_row_state_columns table_name columns
    ++ check_missing_sync_updated_at def table_name columns
    ++ check_missing_local_is_synced def table_name columns
    ++ check_unsupported_column_type def table_name
    ++ check_duplicate_field_name table_name columns
    ++ check_reserved_field_reused def table_name
    ++ check_nullable_scope_column def table_name
    ++ check_batteries_included_not_1_to_1 meta table_name
    ++ check_large_text_field def table_name
    ++ check_json_only_field def table_name
    ++ check_missing_scope_watermark def table_name
        (paired_or (paired_table table_name pairs) def.table)
    ++ check_batteries_included_complex_mapping def table_name

-- `contract.tablesMeta[i].tableName` of a contract without the entry is a TypeError.
pub data NoMeta : Type 0 where
  no_meta : NoMeta

unfoldable pub each_table :
    List PairedDiagnosticTable
    → List SyncedTableDefinition
    → List SyncContractTableMeta
    → Result NoMeta (List SyncDiagnostic)
unfolding table_diagnostics
each_table pairs [] metas = ok []
each_table pairs (def ∷ defs) [] = throw no_meta
each_table pairs (def ∷ defs) (meta ∷ metas) = do
  later ← each_table pairs defs metas
  ok (table_diagnostics pairs def meta ++ later)

unfoldable pub run_diagnostics :
    SyncContract → DiagnosticOptions → Result NoMeta (List SyncDiagnostic)
unfolding check_duplicate_table_name check_fk_cycle_and_external_fk check_additive_change each_table
run_diagnostics contract options = do
  tables ← each_table options.paired_tables contract.tables contract.tables_meta
  ok (
      check_duplicate_table_name (map (λ m. m.table_name) contract.tables_meta)
      ++ check_fk_cycle_and_external_fk contract
      ++ check_additive_change (map (λ m. m.table_name) contract.tables_meta)
          options.previous_tables
      ++ tables)
