-- ===== src/Idempotency/Examples.antt =====
-- The theorems on server/idempotency.ts with the table of lists: `apply` adds one to the world.
use baresync.Prelude.{
  ℕ, String, true, false, ◌≡◌, ◌≢◌, refl, arith, ◌==◌, eq_iff, Result, ok, throw,
}
use baresync.Idempotency.{GuardParams, key_reused, Outcome, run_guard, guard_steps}
use baresync.Idempotency.ListTable.{Rows, list_table, empty_table}
use baresync.Idempotency.Slot.{slot}
use baresync.Idempotency.Repeated.{IsStored}
use baresync.Idempotency.Once.{with_hash, run_guard-once, run_guard-takeover_mixup}
use baresync.Idempotency.Tests.{text_codec, asks, at, apply, left_behind, occupied}

differ : (a b : String) → (a == b) ≡ false → a ≢ b
differ a b h e = ground (arith, eq_iff a b)

abbrev refuse : ℕ → Result String String × ℕ
refuse world = (throw "disk full", world)

abbrev run_at : String → ℕ → Rows → Outcome String String × Rows × ℕ
run_at hash time db = run_guard list_table text_codec 30 (asks hash) (at time) apply (db, 0)

abbrev other_client : GuardParams
other_client = record { client_id = "c2"; idempotency_key = "k1"; request_hash = "h0" }

abbrev first : Outcome String String × Rows × ℕ
first = run_at "h1" 100 empty_table

first-IsStored : IsStored "h1" "done" (slot list_table (asks "h1") first.1)
unfolding guard_steps
first-IsStored = record {
  row = _;
  only = refl;
  status = refl;
  request_hash = refl;
  response_body = refl;
}

run_guard-once_example :
    run_guard list_table text_codec 60 (asks "h1") (at 500) refuse (first.1, first.2)
    ≡ (ok (record { result = "done"; was_replay = true }), first.1, 1)
unfolding guard_steps
run_guard-once_example =
    run_guard-once list_table text_codec 30 (asks "h1") (at 100) apply empty_table 0 "done" "done" 1
      refl refl refl 60 (at 500) refuse

run_guard-takeover_mixup_example :
    let out = run_at "h1" 130 occupied in
    (run_guard list_table text_codec 30 (asks "h1") (at 140) apply (out.1, out.2)
      ≡ (throw key_reused, out.1, 1))
    × (run_guard list_table text_codec 30 (with_hash (asks "h1") "h0") (at 140) apply (out.1, out.2)
        ≡ (ok (record { result = "done"; was_replay = true }), out.1, 1))
unfolding guard_steps
run_guard-takeover_mixup_example =
    run_guard-takeover_mixup list_table text_codec 30 (asks "h1") (at 130) apply occupied 0
      left_behind "done" "done" 1 refl refl (omega arith) (differ "h0" "h1" refl) refl refl 30
      (at 140) apply
