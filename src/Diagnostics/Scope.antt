-- ===== src/Diagnostics/Scope.antt =====
-- packages/baresync/src/generator/diagnostics.ts, the checks of a table's scope column and of the
-- columns that only one side has.
use baresync.Prelude.{
  String, Bool, true, false, not, ◌&&◌, ◌||◌, Option, none, some, List, [], ◌∷◌, ◌==◌,
  if◌then◌else◌, find, any, keep,
}
use baresync.Tables.{Column, Table}
use baresync.Casing.{camel_to_snake, snake_to_camel}
use baresync.Contract.{SyncedTableDefinition, SyncContractTableMeta}
use baresync.Diagnostics.{SyncDiagnostic, error, warning, on_table, on_column, unless}
use baresync.Diagnostics.Columns.{index_has_ordered_prefix}

-- The field, in its own spelling, in snake case or in camel case.
abbrev pub is_spelling : String → String → Bool
is_spelling field name =
    name == field || (name == camel_to_snake field || name == snake_to_camel field)

unfoldable pub check_missing_scope_column :
    SyncedTableDefinition → String → List String → List SyncDiagnostic
unfolding camel_to_snake snake_to_camel
check_missing_scope_column def table_name columns =
    unless (any (is_spelling def.scope.field) columns)
      (on_column "SYNC_SCHEMA_MISSING_SCOPE_COLUMN" error table_name def.scope.field)

-- `columns.find(…)` of the check of a scope column that may be null.
abbrev pub names_field : String → Column → Bool
names_field field c = c.name == field || c.name == camel_to_snake field

abbrev pub nullable_column : String → Option Column → List SyncDiagnostic
nullable_column table_name none = []
nullable_column table_name (some col) =
    unless col.not_null (on_column "SYNC_SCHEMA_NULLABLE_SCOPE_COLUMN" warning table_name col.name)

unfoldable pub check_nullable_scope_column : SyncedTableDefinition → String → List SyncDiagnostic
unfolding camel_to_snake
check_nullable_scope_column def table_name =
    nullable_column table_name (find (names_field def.scope.field) def.table.columns)

abbrev pub is_empty : List String → Bool
is_empty [] = true
is_empty (x ∷ xs) = false

unfoldable pub check_batteries_included_not_1_to_1 :
    SyncContractTableMeta → String → List SyncDiagnostic
unfolding camel_to_snake
check_batteries_included_not_1_to_1 meta table_name =
    let local_only =
      keep (λ column. not (camel_to_snake column == "is_synced")) meta.local_only_columns in
    let server_only =
      keep (λ column. not (camel_to_snake column == "sync_updated_at")) meta.server_only_columns in
    unless (is_empty local_only || is_empty server_only)
      (on_table "SYNC_SCHEMA_BATTERIES_INCLUDED_NOT_1_TO_1" warning table_name)

-- `?.name`
abbrev pub name_of : Option Column → Option String
name_of none = none
name_of (some column) = some column.name

unfoldable pub find_physical_column_name : Table → String → Option String
unfolding camel_to_snake snake_to_camel
find_physical_column_name table field_name =
    name_of (find (λ column. is_spelling field_name column.name) table.columns)

abbrev pub missing_index : String → Table → Option String → List SyncDiagnostic
missing_index table_name table none = []
missing_index table_name table (some scope_column) =
    unless
      (any (λ index. index_has_ordered_prefix index (scope_column ∷ "sync_updated_at" ∷ []))
        table.indexes)
      (on_table "SYNC_INDEX_MISSING_SCOPE_WATERMARK" warning table_name)

unfoldable pub check_missing_scope_watermark :
    SyncedTableDefinition → String → Table → List SyncDiagnostic
unfolding find_physical_column_name index_has_ordered_prefix
check_missing_scope_watermark def table_name table =
    if any (λ column. column.name == "sync_updated_at") table.columns
    then missing_index table_name table (find_physical_column_name table def.scope.field)
    else []

unfoldable pub check_batteries_included_complex_mapping :
    SyncedTableDefinition → String → List SyncDiagnostic
unfolding camel_to_snake snake_to_camel
check_batteries_included_complex_mapping def table_name =
    unless
      (def.scope.source == "scope"
        && def.scope.field == snake_to_camel (camel_to_snake def.scope.field))
      (on_table "SYNC_SCHEMA_BATTERIES_INCLUDED_COMPLEX_MAPPING" warning table_name)
