-- ===== src/Idempotency/Cleanup/Tests.antt =====
-- packages/baresync/src/server/idempotency.ts: cleanups of a table of three rows.
use baresync.Prelude.{
  ℕ, ◌+◌, String, Bool, true, false, not, Option, none, some, [], ◌∷◌, ◌≡◌, refl, arith, length,
  keep, ok,
}
use baresync.Chunking.{take_rows}
use baresync.Idempotency.Table.{Status, pending, completed, BatchRequest}
use baresync.Idempotency.{run_guard}
use baresync.Idempotency.ListTable.{Rows, list_table}
use baresync.Idempotency.Slot.{slot}
use baresync.Idempotency.Repeated.{IsStored}
use baresync.Idempotency.Tests.{text_codec, asks, at, apply}
use baresync.Idempotency.Cleanup.{
  CountedTable, CleanupOptions, Readings, combined_where, CleanupResult,
  cleanup_sync_batch_requests,
}
use baresync.Idempotency.Cleanup.Counting.{HaveIds, cleanup-counts}
use baresync.Idempotency.Cleanup.Replays.{cleanup-replay}

abbrev counted_table : CountedTable
counted_table = record {
  table = list_table;
  count = λ p db. length (keep p db.rows);
  select_limit = λ n p db. take_rows n (keep p db.rows);
  count_lem = λ p db. refl;
  select_limit_lem = λ n p db. refl;
}

abbrev row_of : ℕ → String → Status → ℕ → BatchRequest
row_of id key status time = record {
  id = id;
  client_id = "c1";
  idempotency_key = key;
  request_hash = "h1";
  status = status;
  response_body = some "done";
  created_at = time;
  completed_at = none;
}

abbrev three : Rows
three = record {
  next_id = 4;
  rows = row_of 1 "k0" completed 30 ∷ row_of 2 "k1" completed 100 ∷ row_of 3 "k2" pending 20 ∷ [];
}

abbrev older_than : ℕ → Option ℕ → Bool → CleanupOptions
older_than age limit dry_run = record {
  older_than = age;
  stale_pending_older_than = some 10;
  limit = limit;
  dry_run = dry_run;
}

abbrev readings : Readings
readings = record { now = 150; stale_now = 150 }

abbrev cleaned : CleanupOptions → CleanupResult × Rows
cleaned options = cleanup_sync_batch_requests counted_table options readings three

limited :
    (cleaned (older_than 60 (some 1) false)).0
    ≡ record { deleted_count = 1; oldest_deleted = some 30; newest_deleted = some 30 }
unfolding cleanup_sync_batch_requests take_rows
limited = refl

unlimited :
    (cleaned (older_than 60 none false)).0
    ≡ record { deleted_count = 2; oldest_deleted = some 20; newest_deleted = some 30 }
unfolding cleanup_sync_batch_requests
unlimited = refl

have_ids : HaveIds three.rows
have_ids = ((refl, (refl, tt)), ((refl, tt), (tt, tt)))

abbrev stored : IsStored "h1" "done" (slot list_table (asks "h1") three)
stored = record {
  row = row_of 2 "k1" completed 100;
  only = refl;
  status = refl;
  request_hash = refl;
  response_body = refl;
}

cleanup-counts_example :
    (length (cleaned (older_than 60 (some 1) false)).1.rows
        + (cleaned (older_than 60 (some 1) false)).0.deleted_count
      ≡ 3)
    × (keep
          (λ r. not (combined_where (older_than 60 (some 1) false) readings r))
          (cleaned (older_than 60 (some 1) false)).1.rows
        ≡ row_of 2 "k1" completed 100 ∷ [])
cleanup-counts_example =
    cleanup-counts counted_table (older_than 60 (some 1) false) readings three refl have_ids

cleanup-replay_example :
    run_guard list_table text_codec 30
      (asks "h1")
      (at 150)
      apply
      ((cleaned (older_than 60 none false)).1, 1)
    ≡ (
      ok (record { result = "done"; was_replay = true }),
      (cleaned (older_than 60 none false)).1,
      1,
    )
cleanup-replay_example =
    cleanup-replay counted_table text_codec 30 (asks "h1") (at 150) apply (older_than 60 none false)
      readings three 1 "done" stored "done" have_ids (omega arith) refl
