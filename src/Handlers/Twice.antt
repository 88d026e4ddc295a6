-- ===== src/Handlers/Twice.antt =====
-- packages/baresync/src/server/handlers.ts: a push that is sent twice.
use baresync.Prelude.{ℕ, String, some, List, [], ◌≡◌, ap, Result, ok}
use baresync.Service.Errors.{Thrown}
use baresync.Service.Envelope.{PushLimits}
use baresync.Idempotency.Table.{BatchTable}
use baresync.Idempotency.{Codec, Clock}
use baresync.Idempotency.Slot.{slot}
use baresync.Idempotency.Repeated.{run_guard-first}
use baresync.Idempotency.Once.{run_guard-once}
use baresync.Handlers.{
  Decoded, SyncScopeResolution, authorized, SyncPushChangesInput, Response, value, guard_params,
  push_input, prepare_push, push_prepared, respond,
}

module _ {Request Row Scope Denial T W : Type 0} (parse : Request → Result Thrown (Decoded Row))
    (limits : PushLimits)
    (resolve_scope : Request → String → Result Thrown (SyncScopeResolution Scope Denial))
    (upsert_order : List String) (t : BatchTable) (codec : Codec T) (timeout : ℕ)
    (database_error : Thrown) (apply : SyncPushChangesInput Row Scope → W → Result Thrown T × W)
    (request : Request) where
  -- The whole handler, at the time it reads and at the clock of its run.
  abbrev pub push : ℕ → Clock → t.Db × W → Response T Denial × t.Db × W
  push now clock state =
      push_prepared upsert_order t codec timeout database_error apply now clock
        (prepare_push parse limits resolve_scope request) state

  module _ (decoded : Decoded Row) (scope : Scope) (v v' : T) (now : ℕ) (clock : Clock) (db : t.Db)
      (world world' : W) where
    -- A push that decodes, is within the limits and authorized, whose client and key are new and whose
    -- application returns, is answered with what the application returned. When the same request comes
    -- again, at whatever time, it is answered with what the stored response parses to, and neither the table nor the
    -- world changes: the changes are applied once.
    pub push-twice :
        prepare_push parse limits resolve_scope request ≡ ok (decoded, authorized scope)
        → slot t (guard_params decoded) db ≡ []
        → apply (push_input upsert_order now decoded scope) world ≡ (ok v, world')
        → codec.parse (codec.stringify v) ≡ some v'
        → (now' : ℕ) (clock' : Clock)
        → let first = push now clock (db, world) in
          (first.0 ≡ value v)
          × (first.2 ≡ world')
          × (push now' clock' (first.1, first.2) ≡ (value v', first.1, world'))
    unfolding push_prepared respond
    push-twice prepared new returns parses now' clock' =
        let p = guard_params decoded in
        let callback = apply (push_input upsert_order now decoded scope) in
        let callback' = apply (push_input upsert_order now' decoded scope) in
        let (first, moved, _) =
          run_guard-first t codec timeout p clock callback db world v world' new returns in
        let again =
          run_guard-once t codec timeout p clock callback db world v v' world' new returns parses
            timeout clock' callback' in
        rw prepared (
          ap (respond database_error) first,
          moved,
          ap (λ out. (respond database_error out.0, out.1, out.2)) again,
        )
