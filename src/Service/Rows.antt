-- ===== src/Service/Rows.antt =====
-- server/service.ts, the rows of a pull: `splitSyncRows`, `isKnownSyncTable`, `validateSyncTable`,
-- `buildPullTables` and `changedTableNames`. `Columns` stands for a row's own columns.
-- `Record<TTable, …>` is a function: the callers give a bucket for every table.
pub mod Laws
use baresync.Prelude.{
  ℕ, String, Bool, true, false, ◌||◌, Option, none, some, List, [], ◌∷◌, ◌==◌, if◌then◌else◌, ltb,
  length, has, Result, ok, throw,
}

module _ (Columns : Type 0) where
  pub record SyncRow : Type 0 where
    pub id : String
    pub deleted_at : Option String
    pub sync_updated_at : ℕ
    pub updated_at : String
    pub columns : Columns

  -- `Omit<Row, "syncUpdatedAt">`
  pub record PublicRow : Type 0 where
    pub id : String
    pub deleted_at : Option String
    pub updated_at : String
    pub columns : Columns

pub record SyncRowChangeBucket (Row : Type 0) : Type 0 where
  pub changed_rows : List Row
  pub deleted_ids : List String

pub record PullTable (Row : Type 0) : Type 0 where
  pub changed_rows : List Row
  pub deleted_ids : List String
  pub table : String

abbrev pub public_row : {Columns : Type 0} → SyncRow Columns → PublicRow Columns
public_row row = record {
  id = row.id;
  deleted_at = row.deleted_at;
  updated_at = row.updated_at;
  columns = row.columns;
}

module _ {Columns : Type 0} where
  -- One round of the loop of `splitSyncRows`, at the row's `deletedAt`.
  unfoldable pub split_row :
      SyncRow Columns
      → Option String
      → SyncRowChangeBucket (PublicRow Columns)
      → SyncRowChangeBucket (PublicRow Columns)
  split_row row none later = record later { changed_rows = public_row row ∷ later.changed_rows }
  split_row row (some deleted_at) later = record later { deleted_ids = row.id ∷ later.deleted_ids }

  unfoldable pub split_sync_rows : List (SyncRow Columns) → SyncRowChangeBucket (PublicRow Columns)
  unfolding split_row
  split_sync_rows [] = record { changed_rows = []; deleted_ids = [] }
  split_sync_rows (row ∷ rows) = split_row row row.deleted_at (split_sync_rows rows)

unfoldable pub is_known_sync_table : String → List String → Bool
unfolding has
is_known_sync_table table allowed_tables = has table allowed_tables

-- `Unsupported sync table: …`
pub data UnsupportedTable : Type 0 where
  unsupported : String → List String → UnsupportedTable

unfoldable pub validate_sync_table : String → List String → Result UnsupportedTable String
unfolding is_known_sync_table
validate_sync_table table allowed_tables =
    if is_known_sync_table table allowed_tables
    then ok table
    else throw (unsupported table allowed_tables)

module _ {Row : Type 0} (all_tables : List String)
    (changes : String → SyncRowChangeBucket Row) where
  unfoldable pub pull_tables_from : List String → List (PullTable Row)
  unfolding is_known_sync_table
  pull_tables_from [] = []
  pull_tables_from (table ∷ tables) =
      let later = pull_tables_from tables in
      let bucket = changes table in
      if is_known_sync_table table all_tables
      then (record {
        changed_rows = bucket.changed_rows;
        deleted_ids = bucket.deleted_ids;
        table = table;
      }
          ∷ later)
      else later

  unfoldable pub build_pull_tables : List String → List (PullTable Row)
  unfolding pull_tables_from
  build_pull_tables requested_tables =
      pull_tables_from (if ltb 0 (length requested_tables) then requested_tables else all_tables)

  unfoldable pub changed_from : List String → List String
  changed_from [] = []
  changed_from (table ∷ tables) =
      let later = changed_from tables in
      let bucket = changes table in
      if ltb 0 (length bucket.changed_rows) || ltb 0 (length bucket.deleted_ids)
      then table ∷ later
      else later

  unfoldable pub changed_table_names : List String
  unfolding changed_from
  changed_table_names = changed_from all_tables
