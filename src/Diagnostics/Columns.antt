-- ===== src/Diagnostics/Columns.antt =====
-- packages/baresync/src/generator/diagnostics.ts, the checks of the columns' types and lengths, of the
-- index for the watermark, and of the tables that are gone.
use baresync.Prelude.{
  ℕ, String, Bool, true, false, not, ◌&&◌, ◌||◌, Option, none, some, List, [], ◌∷◌, ◌==◌,
  if◌then◌else◌, ltb, has,
}
use baresync.Tables.{Column}
use baresync.Contract.{SyncedTableDefinition}
use baresync.Diagnostics.{
  Severity, error, warning, SyncDiagnostic, on_table, on_column, known_column_types,
  reserved_fields,
}

-- One diagnostic for each column that fails a test.
unfoldable pub failing_columns :
    (Column → Bool) → String → Severity → String → List Column → List SyncDiagnostic
failing_columns fails code severity table_name [] = []
failing_columns fails code severity table_name (col ∷ columns) =
    let later = failing_columns fails code severity table_name columns in
    if fails col then on_column code severity table_name col.name ∷ later else later

unfoldable pub check_unsupported_column_type : SyncedTableDefinition → String → List SyncDiagnostic
unfolding failing_columns has
check_unsupported_column_type def table_name =
    failing_columns (λ col. not (has col.column_type known_column_types))
      "SYNC_SCHEMA_UNSUPPORTED_COLUMN_TYPE" error table_name def.table.columns

abbrev pub expected_types : String → List String
expected_types name =
    if name == "id"
    then "SQLiteText" ∷ []
    else (if name == "is_synced"
        then "SQLiteInteger" ∷ "SQLiteBoolean" ∷ []
        else (if name == "sync_updated_at"
            then "SQLiteInteger" ∷ "SQLiteTimestamp" ∷ []
            else "SQLiteText" ∷ []))

unfoldable pub is_reused : Column → Bool
unfolding has
is_reused col = has col.name reserved_fields && not (has col.column_type (expected_types col.name))

unfoldable pub check_reserved_field_reused : SyncedTableDefinition → String → List SyncDiagnostic
unfolding failing_columns is_reused
check_reserved_field_reused def table_name =
    failing_columns is_reused "SYNC_SCHEMA_RESERVED_FIELD_REUSED" error table_name def.table.columns

abbrev pub exceeds : Option ℕ → Bool
exceeds none = false
exceeds (some length) = ltb 10000 length

unfoldable pub check_large_text_field : SyncedTableDefinition → String → List SyncDiagnostic
unfolding failing_columns
check_large_text_field def table_name =
    failing_columns (λ col. col.column_type == "SQLiteText" && exceeds col.length)
      "SYNC_SCHEMA_LARGE_TEXT_FIELD" warning table_name def.table.columns

unfoldable pub check_json_only_field : SyncedTableDefinition → String → List SyncDiagnostic
unfolding failing_columns
check_json_only_field def table_name =
    failing_columns
      (λ col. col.column_type == "SQLiteBlobJson" || col.column_type == "SQLiteTextJson")
      "SYNC_SCHEMA_JSON_ONLY_FIELD" warning table_name def.table.columns

-- The names of an index's columns, `none` where one of them is an expression.
abbrev pub with_name : Option String → Option (List String) → Option (List String)
with_name (some name) (some names) = some (name ∷ names)
with_name (some name) none = none
with_name none names = none

unfoldable pub get_index_column_names : List (Option String) → Option (List String)
get_index_column_names [] = some []
get_index_column_names (column ∷ columns) = with_name column (get_index_column_names columns)

abbrev pub is_prefix : List String → List String → Bool
is_prefix [] columns = true
is_prefix (expected ∷ prefix) [] = false
is_prefix (expected ∷ prefix) (column ∷ columns) = column == expected && is_prefix prefix columns

abbrev pub has_prefix : List String → Option (List String) → Bool
has_prefix expected none = false
has_prefix expected (some columns) = is_prefix expected columns

unfoldable pub index_has_ordered_prefix : List (Option String) → List String → Bool
unfolding get_index_column_names
index_has_ordered_prefix index expected_prefix =
    has_prefix expected_prefix (get_index_column_names index)

-- The loop over the tables of the previous manifest.
unfoldable pub gone_tables : List String → List String → List SyncDiagnostic
unfolding has
gone_tables current [] = []
gone_tables current (prev ∷ previous) =
    let later = gone_tables current previous in
    if has prev current then later else on_table "SYNC_COMPAT_ADDITIVE_CHANGE" warning prev ∷ later

-- Without a list of previous tables there is nothing to compare.
unfoldable pub check_additive_change : List String → Option (List String) → List SyncDiagnostic
unfolding gone_tables
check_additive_change current none = []
check_additive_change current (some previous) = gone_tables current previous
