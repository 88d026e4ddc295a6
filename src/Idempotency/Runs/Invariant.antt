-- ===== src/Idempotency/Runs/Invariant.antt =====
-- What holds between the statements of runs that all happen within one pending timeout.
use baresync.Prelude.{
  ℕ, ◌≤◌, Bool, true, false, Option, none, some, List, [], ◌∷◌, ◌≡◌, ◌≢◌, sym, ◌∙◌, ◌⊎◌, inl, inr,
  arith, ◌=?◌, Bool-cases,
}
use baresync.Idempotency.Table.{pending, completed, BatchRequest}
use baresync.Idempotency.Runs.{
  Phase, start, loaded, reclaiming, reserving, recovering, calling, finalizing, cleaning, ended,
  update,
}

-- The run has the key to itself: its callback has not been answered for in the table.
abbrev pub holds : {T E : Type 0} → Phase T E → Bool
holds start = false
holds (loaded existing) = false
holds reclaiming = true
holds reserving = false
holds recovering = false
holds calling = true
holds (finalizing v) = true
holds (cleaning e) = true
holds (ended outcome) = false

-- The callback of a run that has the key has not returned.
abbrev pub is_unreturned : {T E : Type 0} → Phase T E → Bool
is_unreturned start = false
is_unreturned (loaded existing) = false
is_unreturned reclaiming = true
is_unreturned reserving = false
is_unreturned recovering = false
is_unreturned calling = true
is_unreturned (finalizing v) = false
is_unreturned (cleaning e) = true
is_unreturned (ended outcome) = false

-- A row that such runs leave: completed, or pending since a time that is looked at.
abbrev pub IsYoung : ℕ → BatchRequest → Type 0
IsYoung earliest row =
    (row.status ≡ completed) ⊎ ((row.status ≡ pending) × (earliest ≤ row.created_at))

abbrev pub IsYoung? : ℕ → Option BatchRequest → Type 0
IsYoung? earliest none = Unit
IsYoung? earliest (some row) = IsYoung earliest row

-- What a run has read, and that it does not take a row over.
abbrev pub IsSeen : {T E : Type 0} → ℕ → Phase T E → Type 0
IsSeen earliest start = Unit
IsSeen earliest (loaded existing) = IsYoung? earliest existing
IsSeen earliest reclaiming = ⊥
IsSeen earliest reserving = Unit
IsSeen earliest recovering = Unit
IsSeen earliest calling = Unit
IsSeen earliest (finalizing v) = Unit
IsSeen earliest (cleaning e) = Unit
IsSeen earliest (ended outcome) = Unit

-- The rows of the client and key: none, one that is pending, or one that is completed.
abbrev pub IsPending : ℕ → List BatchRequest → Type 0
IsPending earliest [] = ⊥
IsPending earliest (row ∷ []) = (row.status ≡ pending) × (earliest ≤ row.created_at)
IsPending earliest (row ∷ other ∷ rows) = ⊥

abbrev pub IsCompleted : List BatchRequest → Type 0
IsCompleted [] = ⊥
IsCompleted (row ∷ []) = row.status ≡ completed
IsCompleted (row ∷ other ∷ rows) = ⊥

pub record Inv (earliest : ℕ) (rows : List BatchRequest) {T E : Type 0} (returned : ℕ)
    (phase : ℕ → Phase T E) : Type 0 where
  pub shape : (rows ≡ []) ⊎ IsPending earliest rows ⊎ IsCompleted rows
  pub held : (i : ℕ) → holds (phase i) ≡ true → IsPending earliest rows
  pub alone : (i j : ℕ) → holds (phase i) ≡ true → holds (phase j) ≡ true → i ≡ j
  pub once : returned ≤ 1
  pub unused : rows ≡ [] → returned ≡ 0
  pub unreturned : (i : ℕ) → is_unreturned (phase i) ≡ true → returned ≡ 0
  pub seen : (i : ℕ) → IsSeen earliest (phase i)

false-ne-true : false ≢ true
false-ne-true e = cc

module _ {T E : Type 0} {earliest returned : ℕ} {rows : List BatchRequest} {phase : ℕ → Phase T E}
    (inv : Inv earliest rows returned phase) (i : ℕ) (q : Phase T E) where
  open inv use {shape, held, alone, once, unused, unreturned, seen}

  update-IsSeen : IsSeen earliest q → (j : ℕ) → IsSeen earliest (update phase i q j)
  update-IsSeen h j = elim (Bool-cases (i =? j)) [ inl e ↦ rw e h | inr e ↦ rw e (seen j) ]

  -- A step that leaves the table alone, to a phase in which the run does not have the key.
  pub quiet-Inv :
      holds q ≡ false
      → is_unreturned q ≡ false
      → IsSeen earliest q
      → Inv earliest rows returned (update phase i q)
  quiet-Inv h u s = record {
    shape = shape;
    held = λ j k. ground (arith, held j);
    alone = λ j l k k'. ground (arith, alone j l);
    once = once;
    unused = unused;
    unreturned = λ j k. ground (arith, unreturned j);
    seen = update-IsSeen s;
  }

  -- A step of the run that has the key, which keeps it.
  pub keeping-Inv :
      holds (phase i) ≡ true
      → is_unreturned (phase i) ≡ true
      → holds q ≡ true
      → IsSeen earliest q
      → (returned' : ℕ) → (returned' ≡ 0) ⊎ ((returned' ≡ 1) × (is_unreturned q ≡ false))
      → Inv earliest rows returned' (update phase i q)
  keeping-Inv was u h s returned' after = record {
    shape = shape;
    held = λ j k. held i was;
    alone =
        λ j l k k'. ground (arith, alone j l, alone i l, alone j i, Bool-cases (holds (phase j)));
    once = ground arith;
    unused = λ e. absurd (rw e at (held i was));
    unreturned = λ j k. ground (arith, unreturned j, alone i j);
    seen = update-IsSeen s;
  }

  -- A reservation: there was no row, so that no run had the key.
  pub taking-Inv :
      (row : BatchRequest)
      → rows ≡ []
      → row.status ≡ pending
      → earliest ≤ row.created_at
      → IsSeen earliest q
      → Inv earliest (row ∷ []) returned (update phase i q)
  taking-Inv row none_held is_pending young s = record {
    shape = inr (inl (is_pending, young));
    held = λ j k. (is_pending, young);
    alone = λ j l k k'. ground (arith, nobody j, nobody l);
    once = once;
    unused = λ e. cc;
    unreturned = λ j k. unused none_held;
    seen = update-IsSeen s;
  }
    where
      nobody : (j : ℕ) → holds (phase j) ≡ false
      nobody j = elim (Bool-cases (holds (phase j))) [
        | inl k ↦ absurd (rw none_held at (held j k))
        | inr k ↦ k
      ]

  -- The run that has the key gives it up, and leaves no row or a completed one.
  pub leaving-Inv :
      (rows' : List BatchRequest)
      → holds (phase i) ≡ true
      → holds q ≡ false
      → is_unreturned q ≡ false
      → IsSeen earliest q
      → (IsCompleted rows') ⊎ ((rows' ≡ []) × (returned ≡ 0))
      → Inv earliest rows' returned (update phase i q)
  leaving-Inv rows' was h u s left = record {
    shape = elim left [ inl c ↦ inr (inr c) | inr e ↦ inl (e.0) ];
    held = λ j k. absurd (false-ne-true (sym (nobody j) ∙ k));
    alone = λ j l k k'. absurd (false-ne-true (sym (nobody j) ∙ k));
    once = once;
    unused = λ e. elim left [ inl c ↦ absurd (rw e at c) | inr (e', n) ↦ n ];
    unreturned = λ j k. ground (arith, unreturned j);
    seen = update-IsSeen s;
  }
    where
      nobody : (j : ℕ) → holds (update phase i q j) ≡ false
      nobody j = ground (arith, alone i j, Bool-cases (holds (phase j)))
