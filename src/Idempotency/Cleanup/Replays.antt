-- ===== src/Idempotency/Cleanup/Replays.antt =====
-- `cleanupSyncBatchRequests` and `runGuard` on one table: how long a response can be replayed.
use baresync.Prelude.{
  ℕ, String, ◌+◌, ◌≤◌, ◌<◌, Bool, true, false, not, Option, none, some, List, [], ◌∷◌, ◌≡◌, refl,
  sym, ◌∙◌, ap, inl, inr, arith, Bool-cases, ltb, keep, Result, ok,
}
use baresync.Idempotency.Table.{completed, BatchRequest}
use baresync.Idempotency.{GuardParams, Codec, Clock, Outcome, matches, run_guard}
use baresync.Idempotency.Slot.{slot}
use baresync.Idempotency.Repeated.{IsStored, run_guard-first, run_guard-replay}
use baresync.Idempotency.Cleanup.{
  CountedTable, CleanupOptions, Readings, stale_pending_condition, combined_where,
  cleanup_sync_batch_requests,
}
use baresync.Idempotency.Cleanup.Counting.{
  HaveIds, keep-keep, keep-ext, keep_all, due, after-none, after-keep, after-counts,
}

keep-swap :
    (p q : BatchRequest → Bool) (rows : List BatchRequest)
    → keep p (keep q rows) ≡ keep q (keep p rows)
keep-swap p q rows =
    keep-keep p q rows ∙ keep-ext _ _ rows (λ r. ground arith) ∙ sym (keep-keep q p rows)

stale_pending-completed :
    (older : Option ℕ) (clock : Readings) (row : BatchRequest)
    → row.status ≡ completed
    → stale_pending_condition older clock row ≡ false
stale_pending-completed none clock row e = refl
stale_pending-completed (some older) clock row e = rw e (ground arith)

due-completed :
    (options : CleanupOptions) (clock : Readings) (row : BatchRequest)
    → row.status ≡ completed
    → combined_where options clock row ≡ ltb (row.created_at + options.older_than) clock.now
due-completed options clock row e =
    rw (stale_pending-completed options.stale_pending_older_than clock row e, e) (ground arith)

module _ (c : CountedTable) (options : CleanupOptions) (clock : Readings) (db : c.table.Db) where
  abbrev cleaned : c.table.Db
  cleaned = (cleanup_sync_batch_requests c options clock db).1

  rows-cleaned : (q : BatchRequest → Bool) × (c.table.rows cleaned ≡ keep q (c.table.rows db))
  unfolding cleanup_sync_batch_requests
  rows-cleaned = elim (Bool-cases options.dry_run) [
    | inl dry ↦ (λ r. true, rw dry (keep_all (c.table.rows db)))
    | inr real ↦ rw real (after-keep c options clock db options.limit)
  ]

  undue-cleaned :
      HaveIds (c.table.rows db)
      → keep (λ r. not (due c options clock db r)) (c.table.rows cleaned)
        ≡ keep (λ r. not (due c options clock db r)) (c.table.rows db)
  unfolding cleanup_sync_batch_requests
  undue-cleaned ids = elim (Bool-cases options.dry_run) [
    | inl dry ↦ rw dry refl
    | inr real ↦ rw real ((after-counts c options clock db options.limit ids).1)
  ]

kept_row :
    (q undue : BatchRequest → Bool) (row : BatchRequest)
    → keep undue (keep q (row ∷ [])) ≡ row ∷ []
    → keep q (row ∷ []) ≡ row ∷ []
kept_row q undue row e = elim (Bool-cases (q row)) [
  | inl here ↦ rw here refl
  | inr other ↦ cc (rw other at e)
]

module _ (c : CountedTable) (options : CleanupOptions) (clock : Readings) (p : GuardParams)
    (db : c.table.Db) (row : BatchRequest) (found : slot c.table p db ≡ row ∷ []) where
  -- A row that is not due is the row of its client and key behind a cleanup too.
  slot-cleaned :
      HaveIds (c.table.rows db)
      → combined_where options clock row ≡ false
      → slot c.table p (cleaned c options clock db) ≡ row ∷ []
  slot-cleaned ids fresh =
      let undue : BatchRequest → Bool = (λ r. not (due c options clock db r)) in
      let (q, left) = rows-cleaned c options clock db in
      let mine : slot c.table p (cleaned c options clock db) ≡ keep q (row ∷ []) =
        ap (keep (matches p)) left
        ∙ keep-swap (matches p) q (c.table.rows db)
        ∙ ap (keep q) found in
      let same : keep undue (keep q (row ∷ [])) ≡ row ∷ [] =
        ap (keep undue) (sym mine)
        ∙ keep-swap undue (matches p) (c.table.rows (cleaned c options clock db))
        ∙ ap (keep (matches p)) (undue-cleaned c options clock db ids)
        ∙ keep-swap (matches p) undue (c.table.rows db)
        ∙ ap (keep undue) found
        ∙ rw fresh refl in
      mine ∙ kept_row q undue row same

  -- A cleanup without a limit deletes a row that is due.
  slot-cleaned_due :
      options.dry_run ≡ false
      → options.limit ≡ none
      → combined_where options clock row ≡ true
      → slot c.table p (cleaned c options clock db) ≡ []
  unfolding cleanup_sync_batch_requests
  slot-cleaned_due real unlimited old =
      let undue : BatchRequest → Bool = (λ r. not (due c options clock db r)) in
      rw (real, unlimited)
        (ap (keep (matches p)) ((after-none c options clock db).0)
          ∙ keep-swap (matches p) undue (c.table.rows db)
          ∙ ap (keep undue) found
          ∙ rw old refl)

module _ (c : CountedTable) {T E W : Type 0} (codec : Codec T) (timeout : ℕ) (p : GuardParams)
    (clock : Clock) (callback : W → Result E T × W) (options : CleanupOptions) (readings : Readings)
    (db : c.table.Db) (world : W) (response : String)
    (stored : IsStored p.request_hash response (slot c.table p db)) where
  abbrev retry : Outcome T E × c.table.Db × W
  retry =
      run_guard c.table codec timeout p clock callback
        ((cleanup_sync_batch_requests c options readings db).1, world)

  -- A response that is not older than `olderThanMs` outlives every cleanup: a repetition of its
  -- request is answered by it behind the cleanup, and leaves the world and the table alone.
  pub cleanup-replay :
      (v : T)
      → HaveIds (c.table.rows db)
      → readings.now ≤ stored.row.created_at + options.older_than
      → codec.parse response ≡ some v
      → retry ≡ (
        ok (record { result = v; was_replay = true }),
        (cleanup_sync_batch_requests c options readings db).1,
        world,
      )
  cleanup-replay v ids young parses =
      let fresh : combined_where options readings stored.row ≡ false =
        due-completed options readings stored.row stored.status ∙ ground arith in
      run_guard-replay c.table codec timeout p clock callback
        (cleanup_sync_batch_requests c options readings db).1 world v response
        (record {
          row = stored.row;
          only = slot-cleaned c options readings p db stored.row stored.only ids fresh;
          status = stored.status;
          request_hash = stored.request_hash;
          response_body = stored.response_body;
        })
        parses

  -- A response that is older is forgotten by a cleanup that has no limit and is no dry run: a
  -- repetition of its request calls the callback again.
  pub cleanup-again :
      (v : T) (world' : W)
      → options.dry_run ≡ false
      → options.limit ≡ none
      → stored.row.created_at + options.older_than < readings.now
      → callback world ≡ (ok v, world')
      → (retry.0 ≡ ok (record { result = v; was_replay = false })) × (retry.2 ≡ world')
  cleanup-again v world' real unlimited old returns =
      let late : combined_where options readings stored.row ≡ true =
        due-completed options readings stored.row stored.status ∙ ground arith in
      let empty =
        slot-cleaned_due c options readings p db stored.row stored.only real unlimited late in
      let (first, moved, _) =
        run_guard-first c.table codec timeout p clock callback
          (cleanup_sync_batch_requests c options readings db).1 world v world' empty returns in
      (first, moved)
