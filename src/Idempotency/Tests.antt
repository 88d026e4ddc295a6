-- ===== src/Idempotency/Tests.antt =====
-- packages/baresync/src/server/idempotency.ts: two runs one after the other over the table of lists.
use baresync.Prelude.{ℕ, String, [], ◌∷◌, true, false, some, none, ◌≡◌, refl, Result, ok, throw}
use baresync.Idempotency.Table.{pending, BatchRequest}
use baresync.Idempotency.{GuardParams, key_reused, Codec, Clock, Outcome, run_guard, guard_steps}
use baresync.Idempotency.ListTable.{Rows, list_table, empty_table}

abbrev pub text_codec : Codec String
text_codec = record { stringify = λ v. v; parse = λ s. some s }

abbrev pub asks : String → GuardParams
asks hash = record { client_id = "c1"; idempotency_key = "k1"; request_hash = hash }

abbrev pub at : ℕ → Clock
at n = record { checked = n; reserved = n; finished = n }

-- Each application adds one to the world.
abbrev pub apply : ℕ → Result String String × ℕ
apply world = (ok "done", ℕ.suc world)

-- A row that another request left pending.
abbrev pub left_behind : BatchRequest
left_behind = record {
  id = 7;
  client_id = "c1";
  idempotency_key = "k1";
  request_hash = "h0";
  status = pending;
  response_body = none;
  created_at = 100;
  completed_at = none;
}

abbrev pub occupied : Rows
occupied = record { next_id = 8; rows = left_behind ∷ [] }

abbrev first_run : Outcome String String × Rows × ℕ
first_run = run_guard list_table text_codec 30 (asks "h1") (at 100) apply (empty_table, 0)

abbrev second_run : String → Outcome String String × Rows × ℕ
second_run hash =
    run_guard list_table text_codec 30 (asks hash) (at 110) apply (first_run.1, first_run.2)

runs_once :
    (first_run.0 ≡ ok (record { result = "done"; was_replay = false }))
    × ((second_run "h1").0 ≡ ok (record { result = "done"; was_replay = true }))
    × ((second_run "h1").2 ≡ 1)
    × ((second_run "h2").0 ≡ throw key_reused)
unfolding guard_steps
runs_once = (refl, refl, refl, refl)
