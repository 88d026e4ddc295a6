-- ===== src/Idempotency/Runs/Safety.antt =====
-- packages/baresync/src/server/idempotency.ts: interleaved runs within one pending timeout.
use baresync.Prelude.{
  ℕ, ◌+◌, ◌≤◌, ◌<◌, true, false, String, Option, none, some, List, [], ◌∷◌, map, ◌≡◌, ◌≢◌, refl,
  ◌⊎◌, inl, inr, arith, ◌==◌, ltb, Bool-cases, Result, throw,
}
use baresync.Idempotency.Table.{BatchRequest, new_row, BatchTable}
use baresync.Idempotency.{
  GuardParams, Codec, Outcome, replay, key_reused, in_progress, first_row, pending_values,
  inspect_existing_row, take_over, proceed, answer,
}
use baresync.Idempotency.Slot.{slot, load-slot, slot-reserve, finalized, slot-finalize, slot-delete}
use baresync.Idempotency.Once.{with_hash}
use baresync.Idempotency.Runs.{
  Phase, start, Shared, InTime, Move, load, inspect_answer, inspect_take_over, inspect_none,
  inspect_proceed, reclaim, reserve, reserve_fails, reread, call_returns, call_throws, finalize,
  clean, clean_fails, fails, update, System, turn, Reach, here, next, begin,
}
use baresync.Idempotency.Runs.Invariant.{
  holds, IsYoung, IsYoung?, IsPending, IsCompleted, Inv, quiet-Inv, keeping-Inv, taking-Inv,
  leaving-Inv,
}

first_row-IsYoung :
    (earliest : ℕ) (rows : List BatchRequest)
    → (rows ≡ []) ⊎ IsPending earliest rows ⊎ IsCompleted rows
    → IsYoung? earliest (first_row rows)
first_row-IsYoung earliest [] h = tt
first_row-IsYoung earliest (row ∷ []) (inl e) = cc
first_row-IsYoung earliest (row ∷ []) (inr (inl h)) = inr h
first_row-IsYoung earliest (row ∷ []) (inr (inr h)) = inl h
first_row-IsYoung earliest (row ∷ other ∷ rows) (inl e) = cc
first_row-IsYoung earliest (row ∷ other ∷ rows) (inr (inl h)) = absurd h
first_row-IsYoung earliest (row ∷ other ∷ rows) (inr (inr h)) = absurd h

finalized-IsCompleted :
    (earliest : ℕ) (response : String) (now : ℕ) (rows : List BatchRequest)
    → IsPending earliest rows
    → IsCompleted (map (finalized response now) rows)
finalized-IsCompleted earliest response now [] h = absurd h
finalized-IsCompleted earliest response now (row ∷ []) h = refl
finalized-IsCompleted earliest response now (row ∷ other ∷ rows) h = absurd h

module _ {T E : Type 0} (codec : Codec T) (timeout earliest latest : ℕ)
    (short : latest < earliest + timeout) (p : GuardParams) (now : ℕ)
    (in_time : InTime earliest latest now) where
  -- Such a row is answered: it is neither taken over nor passed by.
  young_answered :
      (row : BatchRequest)
      → IsYoung earliest row
      → (outcome : Outcome T E) × (inspect_existing_row {E = E} codec timeout p now (some row)
          ≡ answer outcome)
  unfolding inspect_existing_row
  young_answered row (inl e) = elim (Bool-cases (row.request_hash == p.request_hash)) [
    | inl same ↦ (replay codec row, rw (e, same) refl)
    | inr other ↦ (throw key_reused, rw (e, other) refl)
  ]
  young_answered row (inr (e, young)) =
      let soon : ltb now (row.created_at + timeout) ≡ true = ground arith in
      (throw in_progress, rw (e, soon) refl)

  never_taken_over :
      (existing : Option BatchRequest)
      → IsYoung? earliest existing
      → inspect_existing_row {E = E} codec timeout p now existing ≢ take_over
  unfolding inspect_existing_row
  never_taken_over none young said = cc
  never_taken_over (some row) young said = cc ((young_answered row young).1)

  never_passed_by :
      (row : BatchRequest)
      → IsYoung earliest row
      → inspect_existing_row {E = E} codec timeout p now (some row) ≢ proceed
  never_passed_by row young said = cc ((young_answered row young).1)

-- No row, or a completed one.
abbrev pub IsSettled : List BatchRequest → Type 0
IsSettled rows = (rows ≡ []) ⊎ IsCompleted rows

settled-Inv :
    {T E : Type 0} (earliest : ℕ) (rows : List BatchRequest)
    → IsSettled rows
    → Inv earliest rows {T = T} {E = E} 0 (λ i. start)
settled-Inv earliest rows settled = record {
  shape = elim settled [ inl e ↦ inl e | inr c ↦ inr (inr c) ];
  held = λ i h. cc;
  alone = λ i j h h'. cc;
  once = omega arith;
  unused = λ e. refl;
  unreturned = λ i h. refl;
  seen = λ i. tt;
}

module _ (t : BatchTable) {T E W : Type 0} (codec : Codec T) (timeout earliest latest : ℕ)
    (short : latest < earliest + timeout) (p : GuardParams) (hash : ℕ → String)
    (callback : ℕ → W → Result E T × W) where
  abbrev MemInv : Shared t.Db W → (ℕ → Phase T E) → Type 0
  MemInv m phase = Inv earliest (slot t p m.db) m.returned phase

  -- Every step of a run keeps the invariant.
  Move-Inv :
      (i : ℕ) (phase : ℕ → Phase T E) {m m' : Shared t.Db W} {q q' : Phase T E}
      → phase i ≡ q
      → MemInv m phase
      → Move t codec timeout earliest latest (with_hash p (hash i)) (callback i) m q m' q'
      → MemInv m' (update phase i q')
  Move-Inv i phase {m} e inv load =
      quiet-Inv inv i _ refl refl
        (rw (load-slot t (with_hash p (hash i)) m.db) (first_row-IsYoung earliest _ inv.shape))
  Move-Inv i phase e inv (inspect_answer now it said) = quiet-Inv inv i _ refl refl tt
  Move-Inv i phase e inv (inspect_take_over {existing} now it said) = absurd (
      never_taken_over codec timeout earliest latest short _ now it existing (rw e at (inv.seen i))
        said)
  Move-Inv i phase e inv inspect_none = quiet-Inv inv i _ refl refl tt
  Move-Inv i phase e inv (inspect_proceed {row} now it said) =
      absurd (
        never_passed_by codec timeout earliest latest short _ now it row (rw e at (inv.seen i))
          said)
  Move-Inv i phase e inv (reclaim now it) = absurd (rw e at (inv.seen i))
  Move-Inv i phase {m} e inv (reserve {db'} now it done) =
      let (id, empty, one) = slot-reserve t (with_hash p (hash i)) now m.db db' done in
      rw one (
        taking-Inv inv i _ (new_row id (pending_values (with_hash p (hash i)) now)) empty refl it.0
          tt)
  Move-Inv i phase e inv reserve_fails = quiet-Inv inv i _ refl refl tt
  Move-Inv i phase e inv reread = quiet-Inv inv i _ refl refl tt
  Move-Inv i phase e inv (call_returns done) =
      keeping-Inv inv i _ (rw e refl) (rw e refl) refl tt _
        (inr (omega (arith, inv.unreturned i (rw e refl)), refl))
  Move-Inv i phase e inv (call_throws done) =
      keeping-Inv inv i _ (rw e refl) (rw e refl) refl tt _ (inl (inv.unreturned i (rw e refl)))
  Move-Inv i phase {m} e inv (finalize {v} now it) =
      leaving-Inv inv i _ _ (rw e refl) refl refl tt (
        inl (
          rw (slot-finalize t (with_hash p (hash i)) (codec.stringify v) now m.db)
            (finalized-IsCompleted earliest _ now _ (inv.held i (rw e refl)))))
  Move-Inv i phase {m} e inv clean =
      leaving-Inv inv i _ _ (rw e refl) refl refl tt
        (inr (slot-delete t (with_hash p (hash i)) m.db, inv.unreturned i (rw e refl)))
  Move-Inv i phase e inv clean_fails = quiet-Inv inv i _ refl refl tt
  Move-Inv i phase e inv (fails may) = quiet-Inv inv i _ refl refl tt

  abbrev Steps : System t.Db W T E → System t.Db W T E → Type 0
  Steps = Reach t codec timeout earliest latest p hash callback

  Reach-Inv :
      (s : System t.Db W T E) {u : System t.Db W T E}
      → MemInv s.mem s.phase
      → Steps s u
      → MemInv u.mem u.phase
  Reach-Inv s inv here = inv
  Reach-Inv s inv (next {u} r (turn i mv)) = Move-Inv i u.phase refl (Reach-Inv s inv r) mv

  module _ (db : t.Db) (world : W) (settled : IsSettled (slot t p db)) (s : System t.Db W T E)
      (reached : Steps (begin db world) s) where
    abbrev reached-Inv : MemInv s.mem s.phase
    reached-Inv = Reach-Inv (begin db world) (settled-Inv earliest _ settled) reached

    -- However the statements of any number of runs for one client and key interleave and fail, as
    -- long as all of them happen within one pending timeout and there was no row or a completed one
    -- before, two runs never have the key at once: when one has reserved it, no other
    -- calls its callback, stores a response or cleans up before the first is done.
    pub Reach-exclusive : (i j : ℕ) → holds (s.phase i) ≡ true → holds (s.phase j) ≡ true → i ≡ j
    Reach-exclusive = reached-Inv.alone

    -- Under the same conditions at most one callback returns: a push that many requests carry at once
    -- is applied once, also where a statement fails or a callback throws and another run tries again.
    -- As long as there is no row none has returned, and while some run has the key there is exactly one row, a pending one.
    pub Reach-once :
        (i : ℕ)
        → (s.mem.returned ≤ 1)
          × (((slot t p s.mem.db ≡ []) × (s.mem.returned ≡ 0))
              ⊎ IsPending earliest (slot t p s.mem.db)
              ⊎ IsCompleted (slot t p s.mem.db))
          × ((holds (s.phase i) ≡ false) ⊎ IsPending earliest (slot t p s.mem.db))
    Reach-once i = (
      reached-Inv.once,
      elim reached-Inv.shape [ inl e ↦ inl (e, reached-Inv.unused e) | inr taken ↦ inr taken ],
      elim (Bool-cases (holds (s.phase i))) [ inl h ↦ inr (reached-Inv.held i h) | inr h ↦ inl h ],
    )
