-- ===== src/Idempotency/Cleanup.antt =====
-- packages/baresync/src/server/idempotency.ts, `cleanupSyncBatchRequests`. The times of the oldest and
-- of the newest deleted row are numbers here, and texts of them in the source.
pub mod Counting
pub mod Replays
mod Tests
use baresync.Prelude.{
  ℕ, ◌+◌, Bool, true, false, not, ◌&&◌, ◌||◌, Option, none, some, List, [], ◌∷◌, ◌≡◌, ◌=?◌,
  if◌then◌else◌, ltb, leb, length, keep,
}
use baresync.Chunking.{take_rows}
use baresync.Idempotency.Table.{Status, pending, completed, failed, BatchRequest, BatchTable}

-- Two more statements, and what SQL says of them: `$count`, and a select with a limit.
pub record CountedTable : Type 1 where
  pub table : BatchTable
  pub count : (BatchRequest → Bool) → table.Db → ℕ
  pub select_limit : ℕ → (BatchRequest → Bool) → table.Db → List BatchRequest
  pub count_lem :
      (p : BatchRequest → Bool) (db : table.Db) → count p db ≡ length (keep p (table.rows db))
  pub select_limit_lem :
      (n : ℕ) (p : BatchRequest → Bool) (db : table.Db)
      → select_limit n p db ≡ take_rows n (keep p (table.rows db))

pub record CleanupOptions : Type 0 where
  pub older_than : ℕ
  pub stale_pending_older_than : Option ℕ
  pub limit : Option ℕ
  pub dry_run : Bool

-- The two readings of the clock.
pub record Readings : Type 0 where
  pub now : ℕ
  pub stale_now : ℕ

abbrev pub is_pending : Status → Bool
is_pending pending = true
is_pending completed = false
is_pending failed = false

abbrev pub completed_condition : CleanupOptions → Readings → BatchRequest → Bool
completed_condition options clock r =
    ltb (r.created_at + options.older_than) clock.now && not (is_pending r.status)

abbrev pub stale_pending_condition : Option ℕ → Readings → BatchRequest → Bool
stale_pending_condition none clock r = false
stale_pending_condition (some older) clock r =
    ltb (r.created_at + older) clock.stale_now && is_pending r.status

abbrev pub combined_where : CleanupOptions → Readings → BatchRequest → Bool
combined_where options clock r =
    completed_condition options clock r
    || stale_pending_condition options.stale_pending_older_than clock r

pub record CleanupResult : Type 0 where
  pub deleted_count : ℕ
  pub oldest_deleted : Option ℕ
  pub newest_deleted : Option ℕ

-- `[...toDelete].sort((a, b) => a.createdAt - b.createdAt)`
abbrev pub insert_row : BatchRequest → List BatchRequest → List BatchRequest
insert_row r [] = r ∷ []
insert_row r (s ∷ rows) =
    let rest = insert_row r rows in if leb r.created_at s.created_at then r ∷ s ∷ rows else s ∷ rest

abbrev pub sort_rows : List BatchRequest → List BatchRequest
sort_rows [] = []
sort_rows (r ∷ rows) = insert_row r (sort_rows rows)

-- `sorted[0]` and `sorted.at(-1)`
abbrev pub first_created : List BatchRequest → Option ℕ
first_created [] = none
first_created (r ∷ rows) = some r.created_at

abbrev pub last_created : List BatchRequest → Option ℕ
last_created [] = none
last_created (r ∷ []) = some r.created_at
last_created (r ∷ s ∷ rows) = last_created (s ∷ rows)

abbrev pub summary : List BatchRequest → CleanupResult
summary to_delete = record {
  deleted_count = length to_delete;
  oldest_deleted = first_created (sort_rows to_delete);
  newest_deleted = last_created (sort_rows to_delete);
}

abbrev pub only_count : ℕ → CleanupResult
only_count n = record { deleted_count = n; oldest_deleted = none; newest_deleted = none }

-- The loop that deletes one row after another by its id.
unfoldable pub delete_rows : (t : BatchTable) → List BatchRequest → t.Db → t.Db
delete_rows t [] db = db
delete_rows t (row ∷ rows) db = delete_rows t rows (t.delete (λ r. r.id =? row.id) db)

abbrev pub delete_selected :
    (t : BatchTable) → List BatchRequest → t.Db → t.Db → CleanupResult × t.Db
delete_selected t [] deleted db = (only_count 0, db)
delete_selected t (row ∷ rows) deleted db = (summary (row ∷ rows), deleted)

abbrev pub delete_due :
    (c : CountedTable) → Option ℕ → (BatchRequest → Bool) → c.table.Db → CleanupResult × c.table.Db
delete_due c (some limit) due db =
    let to_delete = c.select_limit limit due db in
    delete_selected c.table to_delete (delete_rows c.table to_delete db) db
delete_due c none due db =
    delete_selected c.table (c.table.select due db) (c.table.delete due db) db

unfoldable pub cleanup_sync_batch_requests :
    (c : CountedTable) → CleanupOptions → Readings → c.table.Db → CleanupResult × c.table.Db
unfolding delete_rows
cleanup_sync_batch_requests c options clock db =
    if options.dry_run
    then (only_count (c.count (combined_where options clock) db), db)
    else delete_due c options.limit (combined_where options clock) db
