-- ===== src/Idempotency/Runs.antt =====
-- packages/baresync/src/server/idempotency.ts, `runGuard` between its awaits: any number of runs for
-- one client and key over one table, interleaved statement by statement. Here a statement may also
-- fail. The callback is one action on the world.
pub mod Invariant
pub mod Safety
pub mod Takeover
mod Tests
use baresync.Prelude.{
  ℕ, suc, ◌≤◌, String, false, Option, none, some, ◌≡◌, Result, ok, throw, ◌=?◌, if◌then◌else◌,
}
use baresync.Idempotency.Table.{BatchRequest, BatchTable}
use baresync.Idempotency.{
  GuardParams, statement_failed, callback_failed, Codec, Outcome, answer, take_over, proceed,
  load_push_batch_response, reserve_push_batch_response, finalize_push_batch_response,
  reclaim_stale_pending_row, delete_pending_row, inspect_existing_row, recover,
}
use baresync.Idempotency.Once.{with_hash}

-- The statement that a run waits for, with the variables that are live there.
pub data Phase (T E : Type 0) : Type 0 where
  start : Phase T E
  loaded : Option BatchRequest → Phase T E
  reclaiming : Phase T E
  reserving : Phase T E
  recovering : Phase T E
  calling : Phase T E
  finalizing : T → Phase T E
  cleaning : E → Phase T E
  ended : Outcome T E → Phase T E

-- What the runs share, and how many callbacks have returned so far.
pub record Shared (Db W : Type 0) : Type 0 where
  pub db : Db
  pub world : W
  pub returned : ℕ

-- The phases in which another statement than the insert may fail: the run then ends with its error.
abbrev pub MayFail : {T E : Type 0} → Phase T E → Type 0
MayFail start = Unit
MayFail reclaiming = Unit
MayFail recovering = Unit
MayFail (finalizing v) = Unit
MayFail (loaded existing) = ⊥
MayFail reserving = ⊥
MayFail calling = ⊥
MayFail (cleaning e) = ⊥
MayFail (ended outcome) = ⊥

-- `Date.now()` lies within the time that is looked at.
abbrev pub InTime : ℕ → ℕ → ℕ → Type 0
InTime earliest latest now = (earliest ≤ now) × (now ≤ latest)

module _ (t : BatchTable) {T E W : Type 0} (codec : Codec T) (timeout earliest latest : ℕ) where
  -- One step of one run.
  pub data Move (p : GuardParams) (callback : W → Result E T × W) (m : Shared t.Db W)
      : Phase T E → Shared t.Db W → Phase T E → Type 0 where
    load : Move p callback m start m (loaded (load_push_batch_response t p m.db))
    inspect_answer :
        {existing : Option BatchRequest} {outcome : Outcome T E} (now : ℕ)
        → InTime earliest latest now
        → inspect_existing_row codec timeout p now existing ≡ answer outcome
        → Move p callback m (loaded existing) m (ended outcome)
    inspect_take_over :
        {existing : Option BatchRequest} (now : ℕ)
        → InTime earliest latest now
        → inspect_existing_row {E = E} codec timeout p now existing ≡ take_over
        → Move p callback m (loaded existing) m reclaiming
    inspect_none : Move p callback m (loaded none) m reserving
    inspect_proceed :
        {row : BatchRequest} (now : ℕ)
        → InTime earliest latest now
        → inspect_existing_row {E = E} codec timeout p now (some row) ≡ proceed
        → Move p callback m (loaded (some row)) m calling
    reclaim :
        (now : ℕ)
        → InTime earliest latest now
        → Move p callback m reclaiming
            (record m { db = reclaim_stale_pending_row t p now m.db })
            calling
    reserve :
        {db' : t.Db} (now : ℕ)
        → InTime earliest latest now
        → reserve_push_batch_response t p now m.db ≡ some db'
        → Move p callback m reserving (record m { db = db' }) calling
    reserve_fails : Move p callback m reserving m recovering
    reread :
        Move p callback m recovering m (ended (recover codec p (load_push_batch_response t p m.db)))
    call_returns :
        {v : T} {world' : W}
        → callback m.world ≡ (ok v, world')
        → Move p callback m calling
            (record m { world = world'; returned = suc m.returned })
            (finalizing v)
    call_throws :
        {e : E} {world' : W}
        → callback m.world ≡ (throw e, world')
        → Move p callback m calling (record m { world = world' }) (cleaning e)
    finalize :
        {v : T} (now : ℕ)
        → InTime earliest latest now
        → Move p callback m
            (finalizing v)
            (record m { db = finalize_push_batch_response t p (codec.stringify v) now m.db })
            (ended (ok (record { result = v; was_replay = false })))
    clean :
        {e : E}
        → Move p callback m
            (cleaning e)
            (record m { db = delete_pending_row t p m.db })
            (ended (throw (callback_failed e)))
    clean_fails : {e : E} → Move p callback m (cleaning e) m (ended (throw (callback_failed e)))
    fails : {q : Phase T E} → MayFail q → Move p callback m q m (ended (throw statement_failed))

  -- The steps of one run alone.
  pub data Moves (p : GuardParams) (callback : W → Result E T × W) (m : Shared t.Db W)
      (q : Phase T E) : Shared t.Db W → Phase T E → Type 0 where
    stay : Moves p callback m q m q
    step :
        {m' m'' : Shared t.Db W} {q' q'' : Phase T E}
        → Moves p callback m q m' q'
        → Move p callback m' q' m'' q''
        → Moves p callback m q m'' q''

abbrev pub update : {A : Type 0} → (ℕ → A) → ℕ → A → ℕ → A
update f i a j = if i =? j then a else f j

pub record System (Db W T E : Type 0) : Type 0 where
  pub mem : Shared Db W
  pub phase : ℕ → Phase T E

-- Before any run has begun.
abbrev pub begin : {Db W T E : Type 0} → Db → W → System Db W T E
begin db world = record {
  mem = record { db = db; world = world; returned = 0 };
  phase = λ i. start;
}

module _ (t : BatchTable) {T E W : Type 0} (codec : Codec T) (timeout earliest latest : ℕ)
    (p : GuardParams) (hash : ℕ → String) (callback : ℕ → W → Result E T × W) where
  -- Run `i` has the request hash `hash i` and the callback `callback i`.
  pub data Step (s : System t.Db W T E) : System t.Db W T E → Type 0 where
    turn :
        (i : ℕ) {m : Shared t.Db W} {q : Phase T E}
        → Move t codec timeout earliest latest
            (with_hash p (hash i))
            (callback i)
            s.mem
            (s.phase i)
            m
            q
        → Step s (record { mem = m; phase = update s.phase i q })

  pub data Reach (s : System t.Db W T E) : System t.Db W T E → Type 0 where
    here : Reach s s
    next : {u v : System t.Db W T E} → Reach s u → Step u v → Reach s v
