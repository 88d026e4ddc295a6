-- ===== src/Idempotency/Runs/Tests.antt =====
-- packages/baresync/src/server/idempotency.ts: interleaved runs over the table of lists.
use baresync.Prelude.{ℕ, ◌≤◌, String, false, [], ◌≡◌, refl, ◌⊎◌, inl, arith}
use baresync.Idempotency.{load_push_batch_response, reserve_push_batch_response}
use baresync.Idempotency.ListTable.{Rows, list_table, empty_table}
use baresync.Idempotency.Slot.{slot}
use baresync.Idempotency.Tests.{text_codec, asks, apply, left_behind, occupied}
use baresync.Idempotency.Runs.{
  finalizing, load, inspect_none, reserve, reserve_fails, System, Reach, here, next, turn, begin,
}
use baresync.Idempotency.Runs.Invariant.{holds, IsPending, IsCompleted}
use baresync.Idempotency.Runs.Safety.{Reach-exclusive, Reach-once}
use baresync.Idempotency.Runs.Takeover.{Reach-taken_twice}

-- Two runs find no row; the first reserves one, and the second fails to.
abbrev contended :
    (s : System Rows ℕ String String) × Reach list_table text_codec 30 100 110
      (asks "h1")
      (λ i. "h1")
      (λ i. apply)
      (begin empty_table 0)
      s
unfolding load_push_batch_response reserve_push_batch_response
contended = (
  _,
  next
      (next
        (next (next (next (next here (turn 0 load)) (turn 1 load)) (turn 0 inspect_none))
          (turn 1 inspect_none))
        (turn 0 (reserve 100 (omega arith, omega arith) refl)))
      (turn 1 reserve_fails),
)

Reach-exclusive_example : ◌≡◌ {A = ℕ} 0 0
unfolding contended
Reach-exclusive_example =
    Reach-exclusive list_table text_codec 30 100 110 (omega arith) (asks "h1") (λ i. "h1")
      (λ i. apply) empty_table 0 (inl refl) contended.0 contended.1 0 0 refl refl

Reach-once_example :
    (contended.0.mem.returned ≤ 1)
    × (((slot list_table (asks "h1") contended.0.mem.db ≡ []) × (contended.0.mem.returned ≡ 0))
        ⊎ IsPending 100 (slot list_table (asks "h1") contended.0.mem.db)
        ⊎ IsCompleted (slot list_table (asks "h1") contended.0.mem.db))
    × ((holds (contended.0.phase 1) ≡ false)
        ⊎ IsPending 100 (slot list_table (asks "h1") contended.0.mem.db))
Reach-once_example =
    Reach-once list_table text_codec 30 100 110 (omega arith) (asks "h1") (λ i. "h1") (λ i. apply)
      empty_table 0 (inl refl) contended.0 contended.1 1

Reach-taken_twice_example :
    (s : System Rows ℕ String String) × Reach list_table text_codec 30 100 130
      (asks "h1")
      (λ i. "h1")
      (λ i. apply)
      (begin occupied 0)
      s
    × (s.phase 0 ≡ finalizing "done")
    × (s.phase 1 ≡ finalizing "done")
    × (s.mem.returned ≡ 2)
    × (s.mem.world ≡ 2)
Reach-taken_twice_example =
    Reach-taken_twice list_table text_codec 30 100 130 (asks "h1") (λ i. "h1") (λ i. apply) occupied
      0 0 1 left_behind "done" "done" 1 2 (λ e. absurd (omega arith)) (omega arith) refl refl
      (omega arith) refl refl
