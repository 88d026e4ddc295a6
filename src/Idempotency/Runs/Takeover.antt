-- ===== src/Idempotency/Runs/Takeover.antt =====
-- packages/baresync/src/server/idempotency.ts: two runs that meet one stale row.
use baresync.Prelude.{
  ℕ, ◌+◌, ◌≤◌, String, false, some, [], ◌∷◌, ◌≡◌, ◌≢◌, refl, sym, ap, arith, ltb, Result, ok,
}
use baresync.Idempotency.Table.{pending, BatchRequest, BatchTable}
use baresync.Idempotency.{
  GuardParams, Codec, load_push_batch_response, inspect_existing_row, take_over,
}
use baresync.Idempotency.Slot.{slot, load-slot}
use baresync.Idempotency.Once.{with_hash}
use baresync.Idempotency.Runs.{
  Phase, start, finalizing, Shared, InTime, Move, load, inspect_take_over, reclaim, call_returns,
  update, System, turn, Reach, here, next, begin,
}

stale-take_over :
    {T E : Type 0} (codec : Codec T) (timeout : ℕ) (p : GuardParams) (now : ℕ) (row : BatchRequest)
    → row.status ≡ pending
    → row.created_at + timeout ≤ now
    → inspect_existing_row {E = E} codec timeout p now (some row) ≡ take_over
unfolding inspect_existing_row
stale-take_over codec timeout p now row is_pending old =
    let late : ltb now (row.created_at + timeout) ≡ false = ground arith in
    rw (is_pending, late) refl

module _ (t : BatchTable) {T E W : Type 0} (codec : Codec T) (timeout earliest latest : ℕ)
    (p : GuardParams) (hash : ℕ → String) (callback : ℕ → W → Result E T × W) (db : t.Db)
    (world : W) where
  -- A state that is reached, with what the runs share and the phases of two runs.
  record Reached (i j : ℕ) (m : Shared t.Db W) (q r : Phase T E) : Type 0 where
    state : System t.Db W T E
    steps : Reach t codec timeout earliest latest p hash callback (begin db world) state
    shared : state.mem ≡ m
    first : state.phase i ≡ q
    second : state.phase j ≡ r

  swap : {i j : ℕ} {m : Shared t.Db W} {q r : Phase T E} → Reached i j m q r → Reached j i m r q
  swap a = record {
    state = a.state;
    steps = a.steps;
    shared = a.shared;
    first = a.second;
    second = a.first;
  }

  advance :
      {i j : ℕ} {m m' : Shared t.Db W} {q q' r : Phase T E}
      → i ≢ j
      → Reached i j m q r
      → Move t codec timeout earliest latest (with_hash p (hash i)) (callback i) m q m' q'
      → Reached i j m' q' r
  advance {i} {m'} {q'} apart a mv = record {
    state = record { mem = m'; phase = update a.state.phase i q' };
    steps = next a.steps (turn i (rw (a.shared, a.first) mv));
    shared = refl;
    first = ground arith;
    second = ground (arith, a.second);
  }

  loaded-take_over :
      (i : ℕ) (row : BatchRequest)
      → slot t p db ≡ row ∷ []
      → row.status ≡ pending
      → row.created_at + timeout ≤ latest
      → inspect_existing_row {E = E} codec timeout
          (with_hash p (hash i))
          latest
          (load_push_batch_response t (with_hash p (hash i)) db)
        ≡ take_over
  loaded-take_over i row found is_pending old =
      rw (load-slot t (with_hash p (hash i)) db, found)
        (stale-take_over codec timeout (with_hash p (hash i)) latest row is_pending old)

  -- Nothing keeps two runs from taking over the same stale row: where the only row of their client
  -- and key is pending and past the time limit, two runs that meet it can both read it before either claims
  -- it. Then both call their callbacks, and both callbacks return: the push is applied twice.
  pub Reach-taken_twice :
      (i j : ℕ) (row : BatchRequest) (v v' : T) (world' world'' : W)
      → i ≢ j
      → earliest ≤ latest
      → slot t p db ≡ row ∷ []
      → row.status ≡ pending
      → row.created_at + timeout ≤ latest
      → callback i world ≡ (ok v, world')
      → callback j world' ≡ (ok v', world'')
      → (s : System t.Db W T E) × Reach t codec timeout earliest latest p hash callback
          (begin db world)
          s
        × (s.phase i ≡ finalizing v)
        × (s.phase j ≡ finalizing v')
        × (s.mem.returned ≡ 2)
        × (s.mem.world ≡ world'')
  Reach-taken_twice i j row v v' world' world'' apart range found is_pending old first_returns
        second_returns =
      let now : InTime earliest latest latest = (range, omega arith) in
      let apart' : j ≢ i = (λ e. apart (sym e)) in
      let begun : Reached i j (record { db = db; world = world; returned = 0 }) start start =
        record {
          state = begin db world;
          steps = here;
          shared = refl;
          first = refl;
          second = refl;
        } in
      let read_first = advance apart begun load in
      let read_both = advance apart' (swap read_first) load in
      let stale_second =
        advance apart' read_both
          (inspect_take_over latest now (loaded-take_over j row found is_pending old)) in
      let stale_both =
        advance apart (swap stale_second)
          (inspect_take_over latest now (loaded-take_over i row found is_pending old)) in
      let claimed_first = advance apart stale_both (reclaim latest now) in
      let claimed_both = advance apart' (swap claimed_first) (reclaim latest now) in
      let called_first = advance apart (swap claimed_both) (call_returns first_returns) in
      let called_both = advance apart' (swap called_first) (call_returns second_returns) in
      (
        called_both.state,
        called_both.steps,
        called_both.second,
        called_both.first,
        ap (λ m. m.returned) called_both.shared,
        ap (λ m. m.world) called_both.shared,
      )
