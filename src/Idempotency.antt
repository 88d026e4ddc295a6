-- ===== src/Idempotency.antt =====
-- packages/baresync/src/server/idempotency.ts: at most one application of a push per client and key.
-- Each database statement is one operation of `BatchTable`. `Date.now()` is a reading of a clock.
-- The callback acts on a world of its own; the guard's table is touched by the guard alone.
pub mod Table
pub mod ListTable
pub mod Slot
mod Guarded
pub mod Repeated
pub mod Once
pub mod Isolated
pub mod Runs
pub mod Cleanup
mod Tests
mod Examples
use baresync.Prelude.{
  ℕ, ◌+◌, String, Bool, true, false, ◌&&◌, Option, none, some, List, [], ◌∷◌, ◌==◌, if◌then◌else◌,
  ltb, Result, ok, throw,
}
use Table.{Status, pending, completed, failed, BatchRequest, Values, Patch, BatchTable}

pub record GuardParams : Type 0 where
  pub client_id : String
  pub idempotency_key : String
  pub request_hash : String

pub record GuardResult (T : Type 0) : Type 0 where
  pub result : T
  pub was_replay : Bool

-- `ConflictRequestError` in its two uses, an insert that failed, another statement that failed, a
-- stored body that is no JSON, and the callback's own error.
pub data GuardError (E : Type 0) : Type 0 where
  key_reused : GuardError E
  in_progress : GuardError E
  reserve_failed : GuardError E
  statement_failed : GuardError E
  bad_json : GuardError E
  callback_failed : E → GuardError E

-- `JSON.stringify` and `JSON.parse` at the type of responses.
pub record Codec (T : Type 0) : Type 0 where
  pub stringify : T → String
  pub parse : String → Option T

-- The readings of `Date.now()` in one run: for the age, at the reservation, at the end.
pub record Clock : Type 0 where
  pub checked : ℕ
  pub reserved : ℕ
  pub finished : ℕ

abbrev pub pending_body : String
pending_body = "{\"pending\":true}"

abbrev pub matches : GuardParams → BatchRequest → Bool
matches params row =
    row.client_id == params.client_id && row.idempotency_key == params.idempotency_key

-- `rows[0] ?? null`
abbrev pub first_row : List BatchRequest → Option BatchRequest
first_row [] = none
first_row (row ∷ rows) = some row

abbrev pub pending_values : GuardParams → ℕ → Values
pending_values params now = record {
  client_id = params.client_id;
  idempotency_key = params.idempotency_key;
  request_hash = params.request_hash;
  status = pending;
  response_body = some pending_body;
  created_at = now;
}

module _ (t : BatchTable) where
  unfoldable pub load_push_batch_response : GuardParams → t.Db → Option BatchRequest
  load_push_batch_response params db = first_row (t.select (matches params) db)

  unfoldable pub reserve_push_batch_response : GuardParams → ℕ → t.Db → Option t.Db
  reserve_push_batch_response params now db = t.insert (pending_values params now) db

  unfoldable pub finalize_push_batch_response : GuardParams → String → ℕ → t.Db → t.Db
  finalize_push_batch_response params response now db =
      t.update
        (record {
          status = completed;
          response_body = response;
          created_at = none;
          completed_at = some now;
        })
        (matches params) db

  unfoldable pub reclaim_stale_pending_row : GuardParams → ℕ → t.Db → t.Db
  reclaim_stale_pending_row params now db =
      t.update
        (record {
          status = pending;
          response_body = pending_body;
          created_at = some now;
          completed_at = none;
        })
        (matches params) db

  unfoldable pub delete_pending_row : GuardParams → t.Db → t.Db
  delete_pending_row params db = t.delete (matches params) db

-- How a run ends.
abbrev pub Outcome : Type 0 → Type 0 → Type 0
Outcome T E = Result (GuardError E) (GuardResult T)

-- What a row asks a run to do: to end with an outcome, to take a stale row over, or to go on.
pub data Verdict (T E : Type 0) : Type 0 where
  answer : Outcome T E → Verdict T E
  take_over : Verdict T E
  proceed : Verdict T E

-- `JSON.parse(null)` reads the text "null".
abbrev pub body_text : Option String → String
body_text none = "null"
body_text (some body) = body

module _ {T E : Type 0} (codec : Codec T) where
  -- `{ result: JSON.parse(row.responseBody!), wasReplay: true }`
  unfoldable pub replay : BatchRequest → Outcome T E
  replay row = elim (codec.parse (body_text row.response_body)) [
    | none ↦ throw bad_json
    | some v ↦ ok (record { result = v; was_replay = true })
  ]

  -- `resolveExistingRow` up to its update: the age is compared as a sum, so that a clock that was
  -- set back gives a negative age, as in the source.
  unfoldable pub inspect_status : ℕ → GuardParams → ℕ → BatchRequest → Status → Verdict T E
  unfolding replay
  inspect_status timeout params now row completed =
      if row.request_hash == params.request_hash
      then answer (replay row)
      else answer (throw key_reused)
  inspect_status timeout params now row pending =
      if ltb now (row.created_at + timeout) then answer (throw in_progress) else take_over
  inspect_status timeout params now row failed = proceed

  unfoldable pub inspect_existing_row : ℕ → GuardParams → ℕ → Option BatchRequest → Verdict T E
  unfolding inspect_status
  inspect_existing_row timeout params now none = proceed
  inspect_existing_row timeout params now (some row) =
      inspect_status timeout params now row row.status

  -- The `catch` of `reserveWithRecovery`, at the row that was read again.
  unfoldable pub recover_status : GuardParams → BatchRequest → Status → Outcome T E
  unfolding replay
  recover_status params row completed =
      if row.request_hash == params.request_hash then replay row else throw key_reused
  recover_status params row pending = throw in_progress
  recover_status params row failed = throw in_progress

  unfoldable pub recover : GuardParams → Option BatchRequest → Outcome T E
  unfolding recover_status
  recover params none = throw reserve_failed
  recover params (some row) = recover_status params row row.status

module _ (t : BatchTable) {T E : Type 0} (codec : Codec T) where
  -- Each of these returns an outcome if the run ends there, and the database.
  unfoldable pub resolve_existing_row :
      ℕ → GuardParams → Clock → Option BatchRequest → t.Db → Option (Outcome T E) × t.Db
  unfolding inspect_existing_row reclaim_stale_pending_row
  resolve_existing_row timeout params clock existing db =
      elim (inspect_existing_row codec timeout params clock.checked existing) [
        | answer outcome ↦ (some outcome, db)
        | take_over ↦ (none, reclaim_stale_pending_row t params clock.reserved db)
        | proceed ↦ (none, db)
      ]

  unfoldable pub reserve_with_recovery : GuardParams → Clock → t.Db → Option (Outcome T E) × t.Db
  unfolding reserve_push_batch_response load_push_batch_response recover
  reserve_with_recovery params clock db =
      elim (reserve_push_batch_response t params clock.reserved db) [
        | some db' ↦ (none, db')
        | none ↦ (some (recover codec params (load_push_batch_response t params db)), db)
      ]

  -- `if (!existing) …`
  unfoldable pub reserve_if_new :
      GuardParams → Clock → Option BatchRequest → t.Db → Option (Outcome T E) × t.Db
  unfolding reserve_with_recovery
  reserve_if_new params clock none db = reserve_with_recovery params clock db
  reserve_if_new params clock (some row) db = (none, db)

module _ (t : BatchTable) {T E W : Type 0} (codec : Codec T) where
  -- The callback with what stands behind it in `runGuard`.
  unfoldable pub settle : GuardParams → Clock → Result E T × W → t.Db → Outcome T E × t.Db × W
  unfolding delete_pending_row finalize_push_batch_response
  settle params clock (throw error, world) db =
      (throw (callback_failed error), delete_pending_row t params db, world)
  settle params clock (ok v, world) db = (
    ok (record { result = v; was_replay = false }),
    finalize_push_batch_response t params (codec.stringify v) clock.finished db,
    world,
  )

  -- `runGuard` behind its reservation, and behind its look at the row that it found.
  unfoldable pub after_reserve :
      GuardParams
      → Clock
      → (W → Result E T × W)
      → Option (Outcome T E) × t.Db
      → W
      → Outcome T E × t.Db × W
  after_reserve params clock callback (some outcome, db) world = (outcome, db, world)
  after_reserve params clock callback (none, db) world = settle params clock (callback world) db

  unfoldable pub after_resolve :
      GuardParams
      → Clock
      → (W → Result E T × W)
      → Option BatchRequest
      → Option (Outcome T E) × t.Db
      → W
      → Outcome T E × t.Db × W
  after_resolve params clock callback existing (some outcome, db) world = (outcome, db, world)
  after_resolve params clock callback existing (none, db) world =
      after_reserve params clock callback (reserve_if_new t codec params clock existing db) world

  unfoldable pub run_guard :
      ℕ → GuardParams → Clock → (W → Result E T × W) → t.Db × W → Outcome T E × t.Db × W
  run_guard timeout params clock callback (db, world) =
      let existing = load_push_batch_response t params db in
      after_resolve params clock callback existing
        (resolve_existing_row t codec timeout params clock existing db) world

-- The functions that a run computes with.
unfoldable pub guard_steps : Unit {0}
unfolding load_push_batch_response resolve_existing_row reserve_if_new settle after_reserve
    after_resolve run_guard
guard_steps = tt
