-- ===== src/Diagnostics/Tests.antt =====
-- packages/baresync/src/generator/diagnostics.ts on one table.
use baresync.Prelude.{String, true, none, some, [], ◌∷◌, ◌≡◌, refl}
use baresync.Tables.{Column}
use baresync.Contract.{SyncedTableDefinition}
use baresync.Diagnostics.{
  error, on_column, check_unsupported_primary_key, check_duplicate_field_name,
}
use baresync.Diagnostics.Columns.{index_has_ordered_prefix}

abbrev id_column : String → Column
id_column type = record {
  name = "id";
  column_type = type;
  primary = true;
  not_null = true;
  length = none;
}

abbrev items_with : String → SyncedTableDefinition
items_with type = record {
  table = record {
    name = "items";
    columns = id_column type ∷ [];
    primary_keys = [];
    foreign_keys = [];
    indexes = [];
  };
  scope = record { column = id_column type; field = "id"; source = "scope" };
  local_only_columns = none;
  server_only_columns = none;
}

number_key :
    check_unsupported_primary_key (items_with "SQLiteInteger") "items"
    ≡ on_column "SYNC_SCHEMA_UNSUPPORTED_PRIMARY_KEY" error "items" "id" ∷ []
unfolding check_unsupported_primary_key
number_key = refl

twice :
    check_duplicate_field_name "items" ("id" ∷ "name" ∷ "id" ∷ [])
    ≡ on_column "SYNC_SCHEMA_DUPLICATE_FIELD_NAME" error "items" "id" ∷ []
unfolding check_duplicate_field_name
twice = refl

watermark_index :
    index_has_ordered_prefix
      (some "scope_id" ∷ some "sync_updated_at" ∷ some "id" ∷ [])
      ("scope_id" ∷ "sync_updated_at" ∷ [])
    ≡ true
unfolding index_has_ordered_prefix
watermark_index = refl
