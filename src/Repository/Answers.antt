-- ===== src/Repository/Answers.antt =====
-- packages/baresync/src/server/drizzle.ts, `loadPullChanges` and `loadSyncStatus`: what is read of the
-- tables for one cursor, and the two answers. The time at which the code looks at its clock is an
-- argument, `locale_compare` is the platform's collation, and `bad_cursor` makes the error of a
-- cursor that does not parse.
pub mod Agreement
use Prim.Native.Nat.{Ordering}
use baresync.Prelude.{
  ℕ, String, Bool, false, Option, none, some, List, [], ◌∷◌, Result, ok, throw, ◌>>=◌, ltb, length,
}
use baresync.Service.Cursor.{
  Numbers, CursorError, parse_sync_cursor_timestamp, format_latest_sync_cursor,
  format_sync_watermark_cursor,
}
use baresync.Service.Latest.{CursorRow, pick_latest_sync_cursor_row}
use baresync.Service.Rows.{
  SyncRow, PublicRow, SyncRowChangeBucket, PullTable, split_sync_rows, build_pull_tables,
  changed_table_names,
}
use baresync.Repository.{TableConfig}

pub record PullResponse (Row : Type 0) : Type 0 where
  pub cursor : String
  pub has_more : Bool
  pub server_time : String
  pub tables : List (PullTable Row)

pub record StatusResponse : Type 0 where
  pub changed_tables : List String
  pub cursor : String
  pub has_changes : Bool
  pub server_time : String

abbrev pub latest_cursor_candidate : {Columns : Type 0} → SyncRow Columns → String → CursorRow
latest_cursor_candidate row table_name = record {
  id = row.id;
  sync_updated_at = row.sync_updated_at;
  table_name = table_name;
  updated_at = row.updated_at;
}

pub record TableSnapshot (Columns : Type 0) : Type 0 where
  pub bucket : SyncRowChangeBucket (PublicRow Columns)
  pub latest_cursor_row : Option CursorRow

abbrev pub candidate_or_none :
    {Columns : Type 0} → String → Option (SyncRow Columns) → Option CursorRow
candidate_or_none table_name none = none
candidate_or_none table_name (some row) = some (latest_cursor_candidate row table_name)

-- `if (result.latestCursorRow) latestCursorRows.push(…)`
abbrev pub with_row : Option CursorRow → List CursorRow → List CursorRow
with_row none rows = rows
with_row (some row) rows = row ∷ rows

abbrev pub latest_cursor_or_null : (String → String → Ordering) → List CursorRow → Option CursorRow
latest_cursor_or_null locale_compare rows = pick_latest_sync_cursor_row locale_compare rows

unfoldable pub format_cursor_or_watermark : Numbers → Option CursorRow → ℕ → String
unfolding format_latest_sync_cursor format_sync_watermark_cursor
format_cursor_or_watermark n none observed_at = format_sync_watermark_cursor n (n.of_ℕ observed_at)
format_cursor_or_watermark n (some row) observed_at =
    format_latest_sync_cursor n row.id (n.of_ℕ row.sync_updated_at) row.table_name

-- `parseSyncCursorTimestamp(input.cursor)`
abbrev pub parsed :
    {Error Number : Type 0}
    → (CursorError → Error)
    → Result CursorError Number
    → Result Error Number
parsed bad_cursor (ok timestamp) = ok timestamp
parsed bad_cursor (throw reason) = throw (bad_cursor reason)

module _ {World Error Columns WriteRow : Type 0} (n : Numbers)
    (tables : String → TableConfig World Error n.Num Columns WriteRow) (cursor_timestamp : n.Num)
    (scope_id : String) (world : World) where
  unfoldable pub read_table_snapshot : String → TableSnapshot Columns
  unfolding split_sync_rows
  read_table_snapshot table_name = record {
    bucket = split_sync_rows ((tables table_name).read_rows cursor_timestamp scope_id world);
    latest_cursor_row =
        candidate_or_none table_name ((tables table_name).read_latest_row scope_id world);
  }

  -- The buckets and the latest rows that `readTableSnapshots` collects.
  unfoldable pub snapshot_changes : String → SyncRowChangeBucket (PublicRow Columns)
  unfolding read_table_snapshot
  snapshot_changes table_name = (read_table_snapshot table_name).bucket

  unfoldable pub latest_cursor_rows : List String → List CursorRow
  unfolding read_table_snapshot
  latest_cursor_rows [] = []
  latest_cursor_rows (table_name ∷ table_names) =
      with_row (read_table_snapshot table_name).latest_cursor_row (latest_cursor_rows table_names)

module _ {World Error Columns WriteRow : Type 0} (n : Numbers)
    (locale_compare : String → String → Ordering) (bad_cursor : CursorError → Error)
    (iso : ℕ → String) (table_names : List String)
    (tables : String → TableConfig World Error n.Num Columns WriteRow) (scope_id : String)
    (observed_at : ℕ) where
  unfoldable pub cursor_after : n.Num → World → String
  unfolding latest_cursor_rows pick_latest_sync_cursor_row format_cursor_or_watermark
  cursor_after timestamp world =
      format_cursor_or_watermark n
        (latest_cursor_or_null locale_compare
          (latest_cursor_rows n tables timestamp scope_id world table_names))
        observed_at

  unfoldable pub build_pull_response :
      n.Num → List String → World → PullResponse (PublicRow Columns)
  unfolding cursor_after snapshot_changes build_pull_tables
  build_pull_response timestamp requested_tables world = record {
    cursor = cursor_after timestamp world;
    has_more = false;
    server_time = iso observed_at;
    tables =
        build_pull_tables table_names (snapshot_changes n tables timestamp scope_id world)
          requested_tables;
  }

  unfoldable pub load_pull_changes :
      String → List String → World → Result Error (PullResponse (PublicRow Columns))
  unfolding parse_sync_cursor_timestamp build_pull_response
  load_pull_changes cursor requested_tables world = do
    timestamp ← parsed bad_cursor (parse_sync_cursor_timestamp n cursor)
    ok (build_pull_response timestamp requested_tables world)

  unfoldable pub load_sync_status : String → World → Result Error StatusResponse
  unfolding parse_sync_cursor_timestamp snapshot_changes cursor_after changed_table_names
  load_sync_status cursor world = do
    timestamp ← parsed bad_cursor (parse_sync_cursor_timestamp n cursor)
    let changed_tables =
          changed_table_names table_names (snapshot_changes n tables timestamp scope_id world) in
        ok (record {
          changed_tables = changed_tables;
          cursor = cursor_after timestamp world;
          has_changes = ltb 0 (length changed_tables);
          server_time = iso observed_at;
        })
