-- ===== src/Idempotency/Guarded.antt =====
-- `runGuard`, run alone: first use, repetition, conflict and failure.
use baresync.Prelude.{ℕ, Option, none, some, List, [], ◌∷◌, ◌≡◌, ◌∙◌, ap, Result}
use baresync.Idempotency.Table.{BatchRequest, new_row, BatchTable}
use baresync.Idempotency.{
  GuardParams, Codec, Clock, Outcome, first_row, pending_values, load_push_batch_response,
  reserve_push_batch_response, inspect_existing_row, answer, take_over, resolve_existing_row,
  reserve_with_recovery, reserve_if_new, reclaim_stale_pending_row, settle, after_reserve,
  after_resolve, run_guard,
}
use baresync.Idempotency.Slot.{slot, load-slot, slot-reserve, reserve_succeeds}

module _ (t : BatchTable) {T E W : Type 0} (codec : Codec T) (timeout : ℕ) (p : GuardParams)
    (clock : Clock) (callback : W → Result E T × W) (db : t.Db) (world : W) where
  abbrev pub run : Outcome T E × t.Db × W
  run = run_guard t codec timeout p clock callback (db, world)

  run_loaded :
      {existing : Option BatchRequest}
      → load_push_batch_response t p db ≡ existing
      → run
        ≡ after_resolve t codec p clock callback existing
            (resolve_existing_row t codec timeout p clock existing db)
            world
  unfolding run_guard
  run_loaded e = rw e

  reserve_with_recovery_ok :
      {db' : t.Db}
      → reserve_push_batch_response t p clock.reserved db ≡ some db'
      → reserve_with_recovery t {E = E} codec p clock db ≡ (none, db')
  unfolding reserve_with_recovery
  reserve_with_recovery_ok e = rw (e, reserve_with_recovery)

  module _ (existing : Option BatchRequest) where
    resolve_answer :
        {outcome : Outcome T E}
        → inspect_existing_row codec timeout p clock.checked existing ≡ answer outcome
        → resolve_existing_row t codec timeout p clock existing db ≡ (some outcome, db)
    unfolding resolve_existing_row
    resolve_answer e = rw (e, resolve_existing_row)

    resolve_take_over :
        inspect_existing_row {E = E} codec timeout p clock.checked existing ≡ take_over
        → resolve_existing_row t {E = E} codec timeout p clock existing db
          ≡ (none, reclaim_stale_pending_row t p clock.reserved db)
    unfolding resolve_existing_row
    resolve_take_over e = rw (e, resolve_existing_row)

  -- A run that finds no row reserves one, and goes on to the callback.
  pub run_fresh :
      slot t p db ≡ []
      → (db' : t.Db) × (id : ℕ) × (slot t p db' ≡ new_row id (pending_values p clock.reserved) ∷ [])
        × (run ≡ settle t codec p clock (callback world) db')
  unfolding after_resolve after_reserve resolve_existing_row reserve_if_new
  run_fresh empty =
      let (db', reserved) = reserve_succeeds t p clock.reserved db empty in
      let (id, _, one) = slot-reserve t p clock.reserved db db' reserved in
      let e = run_loaded (load-slot t p db ∙ ap first_row empty) in
      (db', id, one, e ∙ rw (reserve_with_recovery_ok reserved))

  module _ (row : BatchRequest) (rest : List BatchRequest) (found : slot t p db ≡ row ∷ rest) where
    pub run_found :
        run
        ≡ after_resolve t codec p clock callback
            (some row)
            (resolve_existing_row t codec timeout p clock (some row) db)
            world
    run_found = run_loaded (load-slot t p db ∙ ap first_row found)

    -- A run that finds a row which answers it ends there, and changes nothing.
    pub run_answered :
        {outcome : Outcome T E}
        → inspect_existing_row codec timeout p clock.checked (some row) ≡ answer outcome
        → run ≡ (outcome, db, world)
    unfolding after_resolve
    run_answered e = run_found ∙ rw (resolve_answer (some row) e)

    pub run_stale :
        inspect_existing_row {E = E} codec timeout p clock.checked (some row) ≡ take_over
        → run
          ≡ settle t codec p clock
              (callback world)
              (reclaim_stale_pending_row t p clock.reserved db)
    unfolding after_resolve after_reserve reserve_if_new
    run_stale e = run_found ∙ rw (resolve_take_over (some row) e)
