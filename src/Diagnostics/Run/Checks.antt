-- ===== src/Diagnostics/Run/Checks.antt =====
-- packages/baresync/src/generator/diagnostics.ts: no check but two names a scope column or the column
-- `deleted_at` as missing.
use baresync.Prelude.{
  String, false, Option, none, some, List, [], ◌≡◌, refl, ◌==◌, any, has, All, All-append,
}
use baresync.Tables.{Column, Table}
use baresync.Contract.{SyncedTableDefinition, SyncContractTableMeta, pk_from_composite}
use baresync.Diagnostics.{
  error, on_column, unless, count_all, SyncDiagnostic, pk_from_columns, check_missing_primary_key,
  check_unsupported_primary_key, check_missing_row_state_columns, check_missing_sync_updated_at,
  check_missing_local_is_synced, check_duplicate_field_name,
}
use baresync.Diagnostics.Emitted.{
  unless-All, if-All, missing_key-All, unsupported_key-All, failing_columns-All, repeats-All,
}
use baresync.Diagnostics.Scope.{
  nullable_column, check_nullable_scope_column, check_batteries_included_not_1_to_1,
  find_physical_column_name, missing_index, check_missing_scope_watermark,
  check_batteries_included_complex_mapping,
}
use baresync.Diagnostics.Columns.{
  check_unsupported_column_type, check_reserved_field_reused, check_large_text_field,
  check_json_only_field,
}

-- Neither of the diagnostics for what `defineSyncContract` has refused before.
abbrev pub IsElse : SyncDiagnostic → Type 0
IsElse d =
    ((d.code == "SYNC_SCHEMA_MISSING_SCOPE_COLUMN") ≡ false)
    × ((d.code == "SYNC_SCHEMA_MISSING_DELETED_AT") ≡ false)

nullable_column-IsElse :
    (table_name : String) (found : Option Column) → All IsElse (nullable_column table_name found)
nullable_column-IsElse table_name none = tt
nullable_column-IsElse table_name (some col) = unless-All IsElse col.not_null _ (refl, refl)

missing_index-IsElse :
    (table_name : String) (table : Table) (column : Option String)
    → All IsElse (missing_index table_name table column)
missing_index-IsElse table_name table none = tt
missing_index-IsElse table_name table (some name) = unless-All IsElse _ _ (refl, refl)

pub check_missing_primary_key-IsElse :
    (def : SyncedTableDefinition) (table_name : String)
    → All IsElse (check_missing_primary_key def table_name)
unfolding check_missing_primary_key
check_missing_primary_key-IsElse def table_name =
    missing_key-All IsElse table_name (refl, refl) (pk_from_columns def.table)
      (pk_from_composite def.table)

pub check_unsupported_primary_key-IsElse :
    (def : SyncedTableDefinition) (table_name : String)
    → All IsElse (check_unsupported_primary_key def table_name)
unfolding check_unsupported_primary_key
check_unsupported_primary_key-IsElse def table_name =
    unsupported_key-All IsElse table_name (λ n. (refl, refl)) (refl, refl)
      (pk_from_columns def.table) (pk_from_composite def.table)

pub check_missing_row_state_columns-IsElse :
    (table_name : String) (columns : List String)
    → All IsElse (check_missing_row_state_columns table_name columns)
unfolding check_missing_row_state_columns
check_missing_row_state_columns-IsElse table_name columns =
    let diagnostic = on_column "SYNC_SCHEMA_MISSING_ROW_STATE_COLUMN" error table_name in
    All-append IsElse (unless (has "created_at" columns) (diagnostic "created_at"))
      (unless (has "updated_at" columns) (diagnostic "updated_at"))
      (unless-All IsElse (has "created_at" columns) (diagnostic "created_at") (refl, refl))
      (unless-All IsElse (has "updated_at" columns) (diagnostic "updated_at") (refl, refl))

pub check_missing_sync_updated_at-IsElse :
    (def : SyncedTableDefinition) (table_name : String) (columns : List String)
    → All IsElse (check_missing_sync_updated_at def table_name columns)
unfolding check_missing_sync_updated_at
check_missing_sync_updated_at-IsElse def table_name columns = unless-All IsElse _ _ (refl, refl)

pub check_missing_local_is_synced-IsElse :
    (def : SyncedTableDefinition) (table_name : String) (columns : List String)
    → All IsElse (check_missing_local_is_synced def table_name columns)
unfolding check_missing_local_is_synced
check_missing_local_is_synced-IsElse def table_name columns = unless-All IsElse _ _ (refl, refl)

pub check_unsupported_column_type-IsElse :
    (def : SyncedTableDefinition) (table_name : String)
    → All IsElse (check_unsupported_column_type def table_name)
unfolding check_unsupported_column_type
check_unsupported_column_type-IsElse def table_name =
    failing_columns-All IsElse _ _ _ table_name (λ n. (refl, refl)) def.table.columns

pub check_duplicate_field_name-IsElse :
    (table_name : String) (columns : List String)
    → All IsElse (check_duplicate_field_name table_name columns)
unfolding check_duplicate_field_name
check_duplicate_field_name-IsElse table_name columns =
    repeats-All IsElse (on_column "SYNC_SCHEMA_DUPLICATE_FIELD_NAME" error table_name)
      (λ n. (refl, refl)) (count_all columns [])

pub check_reserved_field_reused-IsElse :
    (def : SyncedTableDefinition) (table_name : String)
    → All IsElse (check_reserved_field_reused def table_name)
unfolding check_reserved_field_reused
check_reserved_field_reused-IsElse def table_name =
    failing_columns-All IsElse _ _ _ table_name (λ n. (refl, refl)) def.table.columns

pub check_nullable_scope_column-IsElse :
    (def : SyncedTableDefinition) (table_name : String)
    → All IsElse (check_nullable_scope_column def table_name)
unfolding check_nullable_scope_column
check_nullable_scope_column-IsElse def table_name = nullable_column-IsElse table_name _

pub check_batteries_included_not_1_to_1-IsElse :
    (meta : SyncContractTableMeta) (table_name : String)
    → All IsElse (check_batteries_included_not_1_to_1 meta table_name)
unfolding check_batteries_included_not_1_to_1
check_batteries_included_not_1_to_1-IsElse meta table_name = unless-All IsElse _ _ (refl, refl)

pub check_large_text_field-IsElse :
    (def : SyncedTableDefinition) (table_name : String)
    → All IsElse (check_large_text_field def table_name)
unfolding check_large_text_field
check_large_text_field-IsElse def table_name =
    failing_columns-All IsElse _ _ _ table_name (λ n. (refl, refl)) def.table.columns

pub check_json_only_field-IsElse :
    (def : SyncedTableDefinition) (table_name : String)
    → All IsElse (check_json_only_field def table_name)
unfolding check_json_only_field
check_json_only_field-IsElse def table_name =
    failing_columns-All IsElse _ _ _ table_name (λ n. (refl, refl)) def.table.columns

pub check_missing_scope_watermark-IsElse :
    (def : SyncedTableDefinition) (table_name : String) (table : Table)
    → All IsElse (check_missing_scope_watermark def table_name table)
unfolding check_missing_scope_watermark
check_missing_scope_watermark-IsElse def table_name table =
    let found = find_physical_column_name table def.scope.field in
    if-All IsElse (any (λ column. column.name == "sync_updated_at") table.columns)
      (missing_index table_name table found) [] (missing_index-IsElse table_name table found) tt

pub check_batteries_included_complex_mapping-IsElse :
    (def : SyncedTableDefinition) (table_name : String)
    → All IsElse (check_batteries_included_complex_mapping def table_name)
unfolding check_batteries_included_complex_mapping
check_batteries_included_complex_mapping-IsElse def table_name = unless-All IsElse _ _ (refl, refl)
