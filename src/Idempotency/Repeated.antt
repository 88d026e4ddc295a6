-- ===== src/Idempotency/Repeated.antt =====
-- What a run that ends leaves for the runs that come after it.
use baresync.Prelude.{
  ℕ, ◌+◌, ◌≤◌, ◌<◌, String, true, false, some, List, [], ◌∷◌, map, ◌≡◌, ◌≢◌, refl, ◌∙◌, ap, arith,
  eq_iff, Result, ok, throw,
}
use baresync.Idempotency.Table.{pending, completed, BatchRequest, new_row, BatchTable}
use baresync.Idempotency.{
  GuardParams, key_reused, in_progress, callback_failed, Codec, Clock, pending_values,
  inspect_existing_row, settle, run_guard,
}
use baresync.Idempotency.Slot.{slot, finalized, reclaimed, slot-finalize, slot-delete, slot-reclaim}
use baresync.Idempotency.Guarded.{run_fresh, run_answered, run_stale}

-- The rows of a client and key are one completed row, with this hash and this stored response.
pub record IsStored (hash response : String) (rows : List BatchRequest) : Type 0 where
  pub row : BatchRequest
  pub only : rows ≡ row ∷ []
  pub status : row.status ≡ completed
  pub request_hash : row.request_hash ≡ hash
  pub response_body : row.response_body ≡ some response

module _ (t : BatchTable) (E : Type 0) {T W : Type 0} (codec : Codec T) (p : GuardParams)
    (clock : Clock) where
  settle_ok :
      (v : T) (world : W) (db : t.Db) (row : BatchRequest)
      → slot t p db ≡ row ∷ []
      → IsStored row.request_hash
          (codec.stringify v)
          (slot t p (settle t {E = E} codec p clock (ok v, world) db).1)
  unfolding settle
  settle_ok v world db row one = record {
    row = finalized (codec.stringify v) clock.finished row;
    only =
        slot-finalize t p (codec.stringify v) clock.finished db
        ∙ ap (map (finalized (codec.stringify v) clock.finished)) one;
    status = refl;
    request_hash = refl;
    response_body = refl;
  }

module _ (t : BatchTable) {T E W : Type 0} (codec : Codec T) (timeout : ℕ) (p : GuardParams)
    (clock : Clock) (callback : W → Result E T × W) (db : t.Db) (world : W) where
  -- The first run for a client and key, with a callback that returns: the run returns the callback's
  -- value as no replay, the world is the callback's, and the response is stored under the run's hash.
  pub run_guard-first :
      (v : T) (world' : W)
      → slot t p db ≡ []
      → callback world ≡ (ok v, world')
      → let out = run_guard t codec timeout p clock callback (db, world) in
        (out.0 ≡ ok (record { result = v; was_replay = false }))
        × (out.2 ≡ world')
        × IsStored p.request_hash (codec.stringify v) (slot t p out.1)
  unfolding settle
  run_guard-first v world' empty returns =
      let (db', id, one, e) = run_fresh t codec timeout p clock callback db world empty in
      rw (e, returns)
        (
          refl,
          refl,
          settle_ok t E codec p clock v world' db' (new_row id (pending_values p clock.reserved))
              one,
        )

  -- A run that finds the stored response of its own request returns it as a replay; neither the world
  -- nor the table changes, and the callback is not called.
  pub run_guard-replay :
      (v : T) (response : String)
      → IsStored p.request_hash response (slot t p db)
      → codec.parse response ≡ some v
      → run_guard t codec timeout p clock callback (db, world)
        ≡ (ok (record { result = v; was_replay = true }), db, world)
  unfolding inspect_existing_row
  run_guard-replay v response stored parses =
      run_answered t codec timeout p clock callback db world stored.row [] stored.only
        (ground (arith, eq_iff stored.row.request_hash p.request_hash))

  -- A run that finds the stored response of another request with its client and key is refused as a
  -- conflict; neither the world nor the table changes.
  pub run_guard-conflict :
      (hash response : String)
      → IsStored hash response (slot t p db)
      → hash ≢ p.request_hash
      → run_guard t codec timeout p clock callback (db, world) ≡ (throw key_reused, db, world)
  unfolding inspect_existing_row
  run_guard-conflict hash response stored other =
      run_answered t codec timeout p clock callback db world stored.row [] stored.only
        (ground (arith, eq_iff stored.row.request_hash p.request_hash))

  -- Within the time limit, a run that finds a pending row is refused: neither the world nor the table
  -- changes.
  pub run_guard-in_progress :
      (row : BatchRequest) (rest : List BatchRequest)
      → slot t p db ≡ row ∷ rest
      → row.status ≡ pending
      → clock.checked < row.created_at + timeout
      → run_guard t codec timeout p clock callback (db, world) ≡ (throw in_progress, db, world)
  unfolding inspect_existing_row
  run_guard-in_progress row rest found is_pending young =
      run_answered t codec timeout p clock callback db world row rest found (ground arith)

  -- A first run whose callback throws ends with the callback's error, and leaves no row: the next
  -- run is a first run again.
  pub run_guard-failure :
      (error : E) (world' : W)
      → slot t p db ≡ []
      → callback world ≡ (throw error, world')
      → let out = run_guard t codec timeout p clock callback (db, world) in
        (out.0 ≡ throw (callback_failed error)) × (out.2 ≡ world') × (slot t p out.1 ≡ [])
  unfolding settle
  run_guard-failure error world' empty throws =
      let (db', id, one, e) = run_fresh t codec timeout p clock callback db world empty in
      rw (e, throws) (refl, refl, slot-delete t p db')

  -- A run that finds one pending row past the time limit, and whose callback returns, runs the
  -- callback and completes the row. The row keeps the request hash that it had.
  pub run_guard-takeover :
      (row : BatchRequest) (v : T) (world' : W)
      → slot t p db ≡ row ∷ []
      → row.status ≡ pending
      → row.created_at + timeout ≤ clock.checked
      → callback world ≡ (ok v, world')
      → let out = run_guard t codec timeout p clock callback (db, world) in
        (out.0 ≡ ok (record { result = v; was_replay = false }))
        × (out.2 ≡ world')
        × IsStored row.request_hash (codec.stringify v) (slot t p out.1)
  unfolding inspect_existing_row settle
  run_guard-takeover row v world' found is_pending old returns =
      let e = run_stale t codec timeout p clock callback db world row [] found (ground arith) in
      let one = slot-reclaim t p clock.reserved db ∙ ap (map (reclaimed clock.reserved)) found in
      rw (e, returns) (refl, refl, settle_ok t E codec p clock v world' _ _ one)
