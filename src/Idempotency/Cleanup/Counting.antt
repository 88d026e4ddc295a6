-- ===== src/Idempotency/Cleanup/Counting.antt =====
-- `cleanupSyncBatchRequests`: which rows it deletes, and how many.
use baresync.Prelude.{
  ℕ, zero, suc, ◌+◌, Bool, true, false, not, ◌&&◌, Option, none, some, List, [], ◌∷◌, ◌≡◌, refl,
  sym, ◌∙◌, ap, subst, inl, inr, arith, Bool-cases, ◌=?◌, length, any, keep, All, AllPairs,
}
use baresync.Chunking.{take_rows}
use baresync.Idempotency.Table.{BatchRequest, BatchTable}
use baresync.Idempotency.Cleanup.{
  CountedTable, CleanupOptions, Readings, combined_where, only_count, delete_rows, delete_selected,
  delete_due, cleanup_sync_batch_requests,
}

-- The ids of the rows differ, as those of a primary key do.
abbrev pub HaveIds : List BatchRequest → Type 0
HaveIds rows = AllPairs (λ r s. (r.id =? s.id) ≡ false) rows

abbrev pub outside : List BatchRequest → BatchRequest → Bool
outside deleted r = not (any (λ d. r.id =? d.id) deleted)

pub keep-ext :
    (p q : BatchRequest → Bool) (rows : List BatchRequest)
    → ((r : BatchRequest) → p r ≡ q r)
    → keep p rows ≡ keep q rows
keep-ext p q [] same = refl
keep-ext p q (r ∷ rows) same = rw (same r, keep-ext p q rows same) refl

pub keep_all : (rows : List BatchRequest) → rows ≡ keep (λ r. true) rows
keep_all [] = refl
keep_all (r ∷ rows) = ap (λ rest. r ∷ rest) (keep_all rows)

pub keep-keep :
    (p q : BatchRequest → Bool) (rows : List BatchRequest)
    → keep p (keep q rows) ≡ keep (λ r. q r && p r) rows
keep-keep p q [] = refl
keep-keep p q (r ∷ rows) = ground (arith, keep-keep p q rows)

pub rows-delete_rows :
    (t : BatchTable) (deleted : List BatchRequest) (db : t.Db)
    → t.rows (delete_rows t deleted db) ≡ keep (outside deleted) (t.rows db)
unfolding delete_rows
rows-delete_rows t [] db = keep_all (t.rows db)
rows-delete_rows t (d ∷ deleted) db =
    rows-delete_rows t deleted (t.delete (λ r. r.id =? d.id) db)
    ∙ rw (t.delete_lem (λ r. r.id =? d.id) db) (
        keep-keep (outside deleted) (λ r. not (r.id =? d.id)) (t.rows db)
        ∙ keep-ext _ (outside (d ∷ deleted)) (t.rows db) (λ r. ground arith))

module _ (due : BatchRequest → Bool) where
  abbrev pub taken : ℕ → List BatchRequest → List BatchRequest
  taken n rows = take_rows n (keep due rows)

  pub taken_empty : (n : ℕ) → taken n [] ≡ []
  unfolding take_rows
  taken_empty n = refl

  All-taken :
      (P : BatchRequest → Type 0) (n : ℕ) (rows : List BatchRequest)
      → All P rows
      → All P (taken n rows)
  unfolding take_rows
  All-taken P n [] h = tt
  All-taken P zero (r ∷ rows) h = elim (Bool-cases (due r)) [
    | inl here ↦ rw (here, take_rows) tt
    | inr other ↦ rw other (All-taken P zero rows h.1)
  ]
  All-taken P (suc n) (r ∷ rows) h = elim (Bool-cases (due r)) [
    | inl here ↦ rw (here, take_rows) (h.0, All-taken P n rows h.1)
    | inr other ↦ rw other (All-taken P (suc n) rows h.1)
  ]

differs-outside :
    (r : BatchRequest) (deleted : List BatchRequest)
    → All (λ d. (r.id =? d.id) ≡ false) deleted
    → outside deleted r ≡ true
differs-outside r [] h = refl
differs-outside r (d ∷ deleted) h = ground (arith, h, differs-outside r deleted)

keep-outside :
    (r : BatchRequest) (deleted rows : List BatchRequest)
    → All (λ s. (r.id =? s.id) ≡ false) rows
    → keep (outside (r ∷ deleted)) rows ≡ keep (outside deleted) rows
keep-outside r deleted [] h = refl
keep-outside r deleted (s ∷ rows) h =
    let apart : (s.id =? r.id) ≡ false = ground (arith, h.0) in
    rw (apart, keep-outside r deleted rows h.1) refl

module _ (due : BatchRequest → Bool) where
  taken_zero : (rows : List BatchRequest) → taken due 0 rows ≡ []
  unfolding take_rows
  taken_zero [] = refl
  taken_zero (r ∷ rows) = elim (Bool-cases (due r)) [
    | inl here ↦ rw here refl
    | inr other ↦ rw other (taken_zero rows)
  ]

  taken_here :
      (n : ℕ) (r : BatchRequest) (rows : List BatchRequest)
      → due r ≡ true
      → taken due (suc n) (r ∷ rows) ≡ r ∷ taken due n rows
  unfolding take_rows
  taken_here n r rows here = rw here refl

  taken_other :
      (n : ℕ) (r : BatchRequest) (rows : List BatchRequest)
      → due r ≡ false
      → taken due n (r ∷ rows) ≡ taken due n rows
  taken_other n r rows other = rw other refl

  -- What is left behind and what is deleted make up the rows, and what is not due is left behind.
  abbrev pub Accounts : List BatchRequest → List BatchRequest → Type 0
  Accounts deleted rows =
      (length (keep (outside deleted) rows) + length deleted ≡ length rows)
      × (keep (λ r. not (due r)) (keep (outside deleted) rows) ≡ keep (λ r. not (due r)) rows)

  untouched : (rows : List BatchRequest) → Accounts [] rows
  untouched rows =
      let same : keep (outside []) rows ≡ rows = sym (keep_all rows) in
      (omega (arith, ap length same), ap (keep (λ r. not (due r))) same)

  taken_away :
      (r : BatchRequest) (rows deleted : List BatchRequest)
      → due r ≡ true
      → All (λ s. (r.id =? s.id) ≡ false) rows
      → Accounts deleted rows
      → Accounts (r ∷ deleted) (r ∷ rows)
  taken_away r rows deleted here apart (counted, kept) =
      let out : outside (r ∷ deleted) r ≡ false = ground arith in
      let same = keep-outside r deleted rows apart in
      let gone : keep (outside (r ∷ deleted)) (r ∷ rows) ≡ keep (outside deleted) rows =
        rw out same in
      (omega (arith, counted, ap length gone), rw here (ap (keep (λ s. not (due s))) gone ∙ kept))

  left_behind :
      (r : BatchRequest) (rows deleted : List BatchRequest)
      → due r ≡ false
      → All (λ s. (r.id =? s.id) ≡ false) deleted
      → Accounts deleted rows
      → Accounts deleted (r ∷ rows)
  left_behind r rows deleted other apart (counted, kept) =
      let stays : outside deleted r ≡ true = differs-outside r deleted apart in
      let still : keep (outside deleted) (r ∷ rows) ≡ r ∷ keep (outside deleted) rows =
        rw stays refl in
      (
        omega (arith, counted, ap length still),
        ap (keep (λ s. not (due s))) still ∙ rw other (ap (λ rest. r ∷ rest) kept),
      )

  pub keep-outside_taken :
      (n : ℕ) (rows : List BatchRequest) → HaveIds rows → Accounts (taken due n rows) rows
  keep-outside_taken n [] h = subst (λ d. Accounts d []) (sym (taken_empty due n)) (untouched [])
  keep-outside_taken zero (r ∷ rows) h =
      subst (λ d. Accounts d (r ∷ rows)) (sym (taken_zero (r ∷ rows))) (untouched (r ∷ rows))
  keep-outside_taken (suc n) (r ∷ rows) h = elim (Bool-cases (due r)) [
    | inl here ↦
        subst (λ d. Accounts d (r ∷ rows)) (sym (taken_here n r rows here))
          (taken_away r rows (taken due n rows) here h.0 (keep-outside_taken n rows h.1))
    | inr other ↦
        subst (λ d. Accounts d (r ∷ rows)) (sym (taken_other (suc n) r rows other))
          (left_behind r rows (taken due (suc n) rows) other
            (All-taken due (λ s. (r.id =? s.id) ≡ false) (suc n) rows h.0)
            (keep-outside_taken (suc n) rows h.1))
  ]

length-keep_both :
    (p : BatchRequest → Bool) (rows : List BatchRequest)
    → length (keep (λ r. not (p r)) rows) + length (keep p rows) ≡ length rows
length-keep_both p [] = refl
length-keep_both p (r ∷ rows) = ground (arith, length-keep_both p rows)

keep-idempotent :
    (p : BatchRequest → Bool) (rows : List BatchRequest) → keep p (keep p rows) ≡ keep p rows
keep-idempotent p rows = keep-keep p p rows ∙ keep-ext _ p rows (λ r. ground arith)

-- Both branches behind a selection: nothing is deleted where nothing is selected.
pub delete_selected-cases :
    (t : BatchTable) (to_delete : List BatchRequest) (deleted db : t.Db)
    → (to_delete ≡ [] → t.rows deleted ≡ t.rows db)
    → (t.rows (delete_selected t to_delete deleted db).1 ≡ t.rows deleted)
      × ((delete_selected t to_delete deleted db).0.deleted_count ≡ length to_delete)
delete_selected-cases t [] deleted db idle = (sym (idle refl), refl)
delete_selected-cases t (r ∷ to_delete) deleted db idle = (refl, refl)

keep_none :
    (p : BatchRequest → Bool) (rows : List BatchRequest)
    → keep p rows ≡ []
    → keep (λ r. not (p r)) rows ≡ rows
keep_none p [] e = refl
keep_none p (r ∷ rows) e = elim (Bool-cases (p r)) [
  | inl here ↦ cc (rw here at e)
  | inr other ↦ rw other (ap (λ rest. r ∷ rest) (keep_none p rows (rw other at e)))
]

module _ (c : CountedTable) (options : CleanupOptions) (clock : Readings) (db : c.table.Db) where
  abbrev pub due : BatchRequest → Bool
  due = combined_where options clock

  abbrev before : List BatchRequest
  before = c.table.rows db

  abbrev after : Option ℕ → List BatchRequest
  after limit = c.table.rows (delete_due c limit due db).1

  abbrev deleted_count : Option ℕ → ℕ
  deleted_count limit = (delete_due c limit due db).0.deleted_count

  idle_rows :
      (to_delete : List BatchRequest)
      → to_delete ≡ []
      → c.table.rows (delete_rows c.table to_delete db) ≡ before
  unfolding delete_rows
  idle_rows to_delete e = rw e refl

  idle_all : c.table.select due db ≡ [] → c.table.rows (c.table.delete due db) ≡ before
  idle_all e =
      c.table.delete_lem due db ∙ keep_none due before (sym (c.table.select_lem due db) ∙ e)

  after-some :
      (n : ℕ)
      → (after (some n) ≡ keep (outside (taken due n before)) before)
        × (deleted_count (some n) ≡ length (taken due n before))
  after-some n =
      let to_delete = c.select_limit n due db in
      let (rest, count) =
        delete_selected-cases c.table to_delete (delete_rows c.table to_delete db) db
          (idle_rows to_delete) in
      rw (← c.select_limit_lem n due db) (rest ∙ rows-delete_rows c.table to_delete db, count)

  pub after-none :
      (after none ≡ keep (λ r. not (due r)) before)
      × (deleted_count none ≡ length (keep due before))
  after-none =
      let (rest, count) =
        delete_selected-cases c.table (c.table.select due db) (c.table.delete due db) db idle_all in
      (rest ∙ c.table.delete_lem due db, count ∙ ap length (c.table.select_lem due db))

  -- Some of the rows are left, as they were.
  pub after-keep : (limit : Option ℕ) → (q : BatchRequest → Bool) × (after limit ≡ keep q before)
  after-keep none = (_, after-none.0)
  after-keep (some n) = (_, (after-some n).0)

  pub after-counts :
      (limit : Option ℕ)
      → HaveIds before
      → (length (after limit) + deleted_count limit ≡ length before)
        × (keep (λ r. not (due r)) (after limit) ≡ keep (λ r. not (due r)) before)
  after-counts none ids =
      rw (after-none.0, after-none.1)
        (length-keep_both due before, keep-idempotent (λ r. not (due r)) before)
  after-counts (some n) ids =
      rw ((after-some n).0, (after-some n).1) (keep-outside_taken due n before ids)

  -- A cleanup that is no dry run deletes as many rows as it says, with a limit or without, and every
  -- row that is not old enough stays as it is, in its place among those that stay.
  pub cleanup-counts :
      options.dry_run ≡ false
      → HaveIds before
      → let out = cleanup_sync_batch_requests c options clock db in
        (length (c.table.rows out.1) + out.0.deleted_count ≡ length before)
        × (keep (λ r. not (due r)) (c.table.rows out.1) ≡ keep (λ r. not (due r)) before)
  unfolding cleanup_sync_batch_requests
  cleanup-counts real ids = rw real (after-counts options.limit ids)

  -- A dry run changes nothing, and says how many rows the same cleanup without a limit deletes.
  pub cleanup-dry_run :
      cleanup_sync_batch_requests c (record options { dry_run = true }) clock db ≡ (
        only_count
            (cleanup_sync_batch_requests c
              (record options { dry_run = false; limit = none })
              clock
              db).0.deleted_count,
        db,
      )
  unfolding cleanup_sync_batch_requests
  cleanup-dry_run = rw (c.count_lem due db) (ap (λ n. (only_count n, db)) (sym after-none.1))
