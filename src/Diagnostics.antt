-- ===== src/Diagnostics.antt =====
-- packages/baresync/src/generator/diagnostics.ts, the checks of one table's keys, columns and
-- repeated names. A diagnostic is its code, severity, table and column; its texts for people (`message`,
-- `why`, `fix`) are left out. Columns holds the checks of the columns' types and of the gone tables,
-- Scope those of the scope, ForeignKeys that of the foreign keys, and Run all of them together.
pub mod Columns
pub mod Keys
pub mod Repeats
pub mod Emitted
pub mod Scope
pub mod ForeignKeys
pub mod Run
mod Tests
use baresync.Prelude.{
  ℕ, ◌+◌, String, Bool, true, false, not, ◌&&◌, ◌||◌, Option, none, some, List, [], ◌∷◌, ◌++◌, ◌==◌,
  if◌then◌else◌, ltb, length, keep, has,
}
use baresync.Tables.{Column, Table}
use baresync.Contract.{SyncedTableDefinition, names_or_empty, pk_from_composite}

pub data Severity : Type 0 where
  error warning info : Severity

pub record SyncDiagnostic : Type 0 where
  pub code : String
  pub severity : Severity
  pub table : Option String
  pub column : Option String

abbrev pub on_table : String → Severity → String → SyncDiagnostic
on_table code severity table = record {
  code = code;
  severity = severity;
  table = some table;
  column = none;
}

abbrev pub on_column : String → Severity → String → String → SyncDiagnostic
on_column code severity table column = record {
  code = code;
  severity = severity;
  table = some table;
  column = some column;
}

abbrev pub known_column_types : List String
known_column_types =
    "SQLiteText" ∷ "SQLiteInteger" ∷ "SQLiteBoolean" ∷ "SQLiteTimestamp" ∷ "SQLiteReal"
    ∷ "SQLiteBlobBuffer" ∷ "SQLiteBlobJson" ∷ "SQLiteTextJson" ∷ []

abbrev pub reserved_fields : List String
reserved_fields =
    "id" ∷ "created_at" ∷ "updated_at" ∷ "deleted_at" ∷ "is_synced" ∷ "sync_updated_at" ∷ []

abbrev pub pk_from_columns : Table → List Column
pk_from_columns table = keep (λ c. c.primary) table.columns

abbrev pub missing_key : String → List Column → List Column → List SyncDiagnostic
missing_key table_name [] [] = on_table "SYNC_SCHEMA_MISSING_PRIMARY_KEY" error table_name ∷ []
missing_key table_name (c ∷ columns) composite = []
missing_key table_name [] (c ∷ composite) = []

unfoldable pub check_missing_primary_key : SyncedTableDefinition → String → List SyncDiagnostic
check_missing_primary_key def table_name =
    missing_key table_name (pk_from_columns def.table) (pk_from_composite def.table)

-- The check of a single key column.
abbrev pub key_column : String → Column → List SyncDiagnostic
key_column table_name pk =
    if not (pk.column_type == "SQLiteText") || not (pk.name == "id")
    then on_column "SYNC_SCHEMA_UNSUPPORTED_PRIMARY_KEY" error table_name pk.name ∷ []
    else []

abbrev pub single_key : String → List Column → List SyncDiagnostic
single_key table_name (pk ∷ []) = key_column table_name pk
single_key table_name [] = []
single_key table_name (c ∷ d ∷ columns) = []

-- The first list returns where it has a diagnostic.
abbrev pub or_next : List SyncDiagnostic → List SyncDiagnostic → List SyncDiagnostic
or_next [] later = later
or_next (d ∷ ds) later = d ∷ ds

abbrev pub unsupported_key : String → List Column → List Column → List SyncDiagnostic
unsupported_key table_name columns composite =
    if ltb 1 (length composite)
    then on_table "SYNC_SCHEMA_UNSUPPORTED_PRIMARY_KEY" error table_name ∷ []
    else or_next (single_key table_name columns) (single_key table_name composite)

unfoldable pub check_unsupported_primary_key : SyncedTableDefinition → String → List SyncDiagnostic
check_unsupported_primary_key def table_name =
    unsupported_key table_name (pk_from_columns def.table) (pk_from_composite def.table)

abbrev pub unless : Bool → SyncDiagnostic → List SyncDiagnostic
unless true diagnostic = []
unless false diagnostic = diagnostic ∷ []

unfoldable pub check_missing_deleted_at : String → List String → List SyncDiagnostic
unfolding has
check_missing_deleted_at table_name columns =
    unless (has "deleted_at" columns)
      (on_column "SYNC_SCHEMA_MISSING_DELETED_AT" error table_name "deleted_at")

unfoldable pub check_missing_row_state_columns : String → List String → List SyncDiagnostic
unfolding has
check_missing_row_state_columns table_name columns =
    unless (has "created_at" columns)
      (on_column "SYNC_SCHEMA_MISSING_ROW_STATE_COLUMN" error table_name "created_at")
    ++ unless (has "updated_at" columns)
        (on_column "SYNC_SCHEMA_MISSING_ROW_STATE_COLUMN" error table_name "updated_at")

unfoldable pub check_missing_sync_updated_at :
    SyncedTableDefinition → String → List String → List SyncDiagnostic
unfolding has
check_missing_sync_updated_at def table_name columns =
    let server_only = names_or_empty def.server_only_columns in
    unless
      (has "sync_updated_at" columns
        || (has "sync_updated_at" server_only || has "syncUpdatedAt" server_only))
      (on_column "SYNC_SCHEMA_MISSING_SYNC_UPDATED_AT" warning table_name "sync_updated_at")

unfoldable pub check_missing_local_is_synced :
    SyncedTableDefinition → String → List String → List SyncDiagnostic
unfolding has
check_missing_local_is_synced def table_name columns =
    let local_only = names_or_empty def.local_only_columns in
    unless (has "is_synced" columns || (has "is_synced" local_only || has "isSynced" local_only))
      (on_column "SYNC_SCHEMA_MISSING_LOCAL_IS_SYNCED" error table_name "is_synced")

-- `seen.set(name, (seen.get(name) ?? 0) + 1)`
unfoldable pub count_up : String → List (String × ℕ) → List (String × ℕ)
count_up name [] = (name, 1) ∷ []
count_up name ((key, count) ∷ seen) =
    let later = count_up name seen in
    if key == name then (key, count + 1) ∷ seen else (key, count) ∷ later

unfoldable pub count_all : List String → List (String × ℕ) → List (String × ℕ)
unfolding count_up
count_all [] seen = seen
count_all (name ∷ names) seen = count_all names (count_up name seen)

unfoldable pub repeats : (String → SyncDiagnostic) → List (String × ℕ) → List SyncDiagnostic
repeats make [] = []
repeats make ((name, count) ∷ seen) =
    let later = repeats make seen in if ltb 1 count then make name ∷ later else later

unfoldable pub check_duplicate_table_name : List String → List SyncDiagnostic
unfolding count_all repeats
check_duplicate_table_name table_names =
    repeats (on_table "SYNC_SCHEMA_DUPLICATE_TABLE_NAME" error) (count_all table_names [])

unfoldable pub check_duplicate_field_name : String → List String → List SyncDiagnostic
unfolding count_all repeats
check_duplicate_field_name table_name columns =
    repeats (on_column "SYNC_SCHEMA_DUPLICATE_FIELD_NAME" error table_name) (count_all columns [])
