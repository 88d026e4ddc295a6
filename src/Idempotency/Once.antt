-- ===== src/Idempotency/Once.antt =====
-- Two runs one after the other.
use baresync.Prelude.{ℕ, ◌+◌, ◌≤◌, String, true, some, [], ◌∷◌, ◌≡◌, ◌≢◌, Result, ok, throw}
use baresync.Idempotency.Table.{pending, BatchRequest, BatchTable}
use baresync.Idempotency.{GuardParams, key_reused, Codec, Clock, Outcome, run_guard}
use baresync.Idempotency.Slot.{slot}
use baresync.Idempotency.Repeated.{
  run_guard-first, run_guard-replay, run_guard-conflict, run_guard-takeover,
}

-- The same client and key, with another request hash.
abbrev pub with_hash : GuardParams → String → GuardParams
with_hash p hash = record p { request_hash = hash }

module _ (t : BatchTable) {T E W : Type 0} (codec : Codec T) (timeout : ℕ) (p : GuardParams)
    (clock : Clock) (callback : W → Result E T × W) (db : t.Db) (world : W) where
  abbrev pub first_run : Outcome T E × t.Db × W
  first_run = run_guard t codec timeout p clock callback (db, world)

  -- Behind a first run for a client and key whose callback returned, every further run of the same
  -- request, with whatever callback, time limit and clock, is answered by the stored response and
  -- leaves the world and the table alone: the push is applied once. The response that comes back is
  -- what parsing its stored text gives.
  pub run_guard-once :
      (v v' : T) (world' : W)
      → slot t p db ≡ []
      → callback world ≡ (ok v, world')
      → codec.parse (codec.stringify v) ≡ some v'
      → (timeout' : ℕ) (clock' : Clock) (callback' : W → Result E T × W)
      → run_guard t codec timeout' p clock' callback' (first_run.1, first_run.2)
        ≡ (ok (record { result = v'; was_replay = true }), first_run.1, world')
  run_guard-once v v' world' empty returns parses timeout' clock' callback' =
      let (_, moved, stored) =
        run_guard-first t codec timeout p clock callback db world v world' empty returns in
      rw moved (
        run_guard-replay t codec timeout' p clock' callback' first_run.1 world' v'
          (codec.stringify v) stored parses)

  -- A run that takes over the stale row of another request (its hash differs) stores its response
  -- under the hash of that other request. So a repetition of the run is refused as a conflict, and a
  -- repetition of the other request is answered with the response of this one.
  pub run_guard-takeover_mixup :
      (row : BatchRequest) (v v' : T) (world' : W)
      → slot t p db ≡ row ∷ []
      → row.status ≡ pending
      → row.created_at + timeout ≤ clock.checked
      → row.request_hash ≢ p.request_hash
      → callback world ≡ (ok v, world')
      → codec.parse (codec.stringify v) ≡ some v'
      → (timeout' : ℕ) (clock' : Clock) (callback' : W → Result E T × W)
      → (run_guard t codec timeout' p clock' callback' (first_run.1, first_run.2)
          ≡ (throw key_reused, first_run.1, world'))
        × (run_guard t codec timeout'
              (with_hash p row.request_hash)
              clock'
              callback'
              (first_run.1, first_run.2)
            ≡ (ok (record { result = v'; was_replay = true }), first_run.1, world'))
  run_guard-takeover_mixup row v v' world' found is_pending old other returns parses timeout' clock'
        callback' =
      let (_, moved, stored) =
        run_guard-takeover t codec timeout p clock callback db world row v world' found is_pending
          old returns in
      rw moved (
        run_guard-conflict t codec timeout' p clock' callback' first_run.1 world' row.request_hash
            (codec.stringify v) stored other,
        run_guard-replay t codec timeout' (with_hash p row.request_hash) clock' callback'
            first_run.1 world' v' (codec.stringify v) stored parses,
      )
