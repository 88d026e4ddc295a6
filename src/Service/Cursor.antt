-- ===== src/Service/Cursor.antt =====
-- server/service.ts, the sync cursors: parsing, formatting, and the latest row of several tables.
-- JavaScript numbers and their texts are the parameter `Numbers`: a cursor's timestamp is read by
-- `Number(…)` and printed by a template, and the code relies on nothing else of either. Two numbers
-- count as equal if `===` says so.
pub mod Text
pub mod Format
pub mod Tests
use baresync.Prelude.{
  ℕ, ◌≤◌, String, Bool, true, false, ◌||◌, not, Option, none, some, List, [], ◌∷◌, ◌≡◌, ◌==◌,
  if◌then◌else◌, length, ◌=?◌, Result, ok, throw, ◌>>=◌,
}
use Text.{split_colon, join_colon, NoColon}

pub record Numbers : Type 1 where
  pub Num : Type 0
  -- An integer of the program, `Number(s)`, `Number.isFinite(n)` and `${n}`.
  pub of_ℕ : ℕ → Num
  pub number : String → Num
  pub is_finite : Num → Bool
  pub show : Num → String
  -- The text of a finite number reads back, and holds no colon. Safe integers are finite.
  pub number-show : (n : Num) → is_finite n ≡ true → number (show n) ≡ n
  pub show-NoColon : (n : Num) → NoColon (show n)
  pub of_ℕ-is_finite : (n : ℕ) → n ≤ 9007199254740991 → is_finite (of_ℕ n) ≡ true

pub data CursorError : Type 0 where
  bad_format : String → CursorError
  bad_timestamp : String → CursorError

abbrev pub watermark_table : String
watermark_table = "__watermark__"

abbrev pub watermark_row : String
watermark_row = "__scope__"

module _ (n : Numbers) where
  pub record SyncCursor : Type 0 where
    pub sync_updated_at : n.Num
    pub table_name : String
    pub row_id : String

  -- The parts behind the tests of the format: four parts of which the first is "sync".
  unfoldable pub parse_parts : String → List String → Result CursorError (Option SyncCursor)
  parse_parts cursor (tag ∷ timestamp ∷ table_name ∷ row_id ∷ []) =
      if tag == "sync"
      then (let sync_updated_at = n.number timestamp in
          if n.is_finite sync_updated_at
          then ok (
              some (record {
                sync_updated_at = sync_updated_at;
                table_name = table_name;
                row_id = row_id;
              }))
          else throw (bad_timestamp timestamp))
      else throw (bad_format cursor)
  parse_parts cursor parts = throw (bad_format cursor)

  unfoldable pub parse_sync_cursor : String → Result CursorError (Option SyncCursor)
  unfolding parse_parts split_colon
  parse_sync_cursor cursor =
      if cursor == "" then ok none else parse_parts cursor (split_colon cursor)

  -- `parseSyncCursor(cursor)?.syncUpdatedAt ?? 0`
  abbrev timestamp_or_zero : Option SyncCursor → n.Num
  timestamp_or_zero none = n.of_ℕ 0
  timestamp_or_zero (some cursor) = cursor.sync_updated_at

  unfoldable pub parse_sync_cursor_timestamp : String → Result CursorError n.Num
  unfolding parse_sync_cursor
  parse_sync_cursor_timestamp cursor = do
    parsed ← parse_sync_cursor cursor
    ok (timestamp_or_zero parsed)

  unfoldable pub format_sync_cursor : SyncCursor → String
  unfolding join_colon
  format_sync_cursor cursor =
      join_colon "sync"
        (join_colon (n.show cursor.sync_updated_at) (join_colon cursor.table_name cursor.row_id))

  unfoldable pub format_latest_sync_cursor : (id : String) → n.Num → (table_name : String) → String
  unfolding format_sync_cursor
  format_latest_sync_cursor id sync_updated_at table_name =
      format_sync_cursor
        (record { sync_updated_at = sync_updated_at; table_name = table_name; row_id = id })

  unfoldable pub format_sync_watermark_cursor : n.Num → String
  unfolding format_sync_cursor
  format_sync_watermark_cursor sync_updated_at = format_sync_cursor (record {
    sync_updated_at = sync_updated_at;
    table_name = watermark_table;
    row_id = watermark_row;
  })
