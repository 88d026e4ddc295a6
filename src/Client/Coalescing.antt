-- ===== src/Client/Coalescing.antt =====
-- packages/baresync/src/tauri/client.ts: the pending changes of the outbox as a map from rows to
-- operations.
use baresync.Prelude.{
  String, Bool, true, false, ◌&&◌, Option, none, some, List, [], ◌∷◌, ◌++◌, map, ◌≡◌, ◌≢◌, refl,
  sym, ◌∙◌, ap, inl, inr, ◌⊎◌, arith, ◌==◌, eq_iff, Bool-cases, Option-cases, if◌then◌else◌, any,
  keep,
}
use baresync.Client.{
  Operation, insert, update, OutboxRow, is_pending, waits_for, kept_operation, Changes, changed,
  upserted, Outbox, LocalOperation, inserts, updates, operation_of, LocalChange, Stamp,
  outbox_values, enqueue_change, enqueue_all,
}

-- The abstract outbox: for each row of each table, the operation that waits to be pushed.
abbrev pub View : Type 0
View = String → String → Option Operation

abbrev pub first_operation : List OutboxRow → Option Operation
first_operation [] = none
first_operation (r ∷ rows) = some r.operation

abbrev pub view : List OutboxRow → View
view rows table_name row_id = first_operation (keep (waits_for table_name row_id) rows)

abbrev pub merged : Option Operation → Operation → Operation
merged none given = given
merged (some old) given = kept_operation old given

-- A change of the abstract outbox.
abbrev pub record_change : LocalChange → View → View
record_change change v table_name row_id =
    if change.table_name == table_name && change.row_id == row_id
    then some (merged (v table_name row_id) (operation_of change.operation))
    else v table_name row_id

abbrev pub record_all : List (LocalChange × Stamp) → View → View
record_all [] v = v
record_all ((change, stamp) ∷ changes) v = record_all changes (record_change change v)

-- Two rows that wait for the same row of the same table.
abbrev pub clash : OutboxRow → OutboxRow → Bool
clash r s = is_pending r && waits_for r.table_name r.row_id s

module _ (table_name row_id : String) where
  abbrev mine : OutboxRow → Bool
  mine = waits_for table_name row_id

  abbrev merged_row : Option Operation → Operation → Option Operation
  merged_row none given = none
  merged_row (some old) given = some (kept_operation old given)

  mine-changed : (set : Changes) (r : OutboxRow) → mine (changed set r) ≡ mine r
  mine-changed set r = refl

  -- The row that waits is changed.
  view_here :
      (set : Changes) (rows : List OutboxRow)
      → first_operation (keep mine (map (λ r. if mine r then changed set r else r) rows))
        ≡ merged_row (first_operation (keep mine rows)) set.operation
  view_here set [] = refl
  view_here set (r ∷ rows) = elim (Bool-cases (mine r)) [
    | inl here ↦ rw (here, mine-changed set r, here) refl
    | inr other ↦ rw (other, keep, other) (view_here set rows)
  ]

  -- A row that waits for another one does not count.
  view_apart :
      (q : OutboxRow → Bool) (set : Changes) (rows : List OutboxRow)
      → ((r : OutboxRow) → q r ≡ true → mine r ≡ false)
      → first_operation (keep mine (map (λ r. if q r then changed set r else r) rows))
        ≡ first_operation (keep mine rows)
  view_apart q set [] h = refl
  view_apart q set (r ∷ rows) h = elim (Bool-cases (q r)) [
    | inl here ↦ rw (here, mine-changed set r, h r here) (view_apart q set rows h)
    | inr other ↦ elim (Bool-cases (mine r)) [
      | inl waits ↦ rw (other, keep, waits) refl
      | inr gone ↦ rw (other, keep, gone) (view_apart q set rows h)
    ]
  ]

  view_new :
      (v : OutboxRow) (rows : List OutboxRow)
      → any mine rows ≡ false
      → mine v ≡ true
      → first_operation (keep mine (rows ++ v ∷ [])) ≡ some v.operation
  view_new v [] h e = rw e refl
  view_new v (r ∷ rows) h e =
      let other : mine r ≡ false = ground arith in rw other (view_new v rows (ground arith) e)

  view_old :
      (v : OutboxRow) (rows : List OutboxRow)
      → mine v ≡ false
      → first_operation (keep mine (rows ++ v ∷ [])) ≡ first_operation (keep mine rows)
  view_old v [] e = rw e refl
  view_old v (r ∷ rows) e = elim (Bool-cases (mine r)) [
    | inl here ↦ rw here refl
    | inr other ↦ rw other (view_old v rows e)
  ]

  view_none :
      (rows : List OutboxRow) → any mine rows ≡ false → first_operation (keep mine rows) ≡ none
  view_none [] h = refl
  view_none (r ∷ rows) h =
      let other : mine r ≡ false = ground arith in rw other (view_none rows (ground arith))

  view_some :
      (rows : List OutboxRow)
      → any mine rows ≡ true
      → (old : Operation) × (first_operation (keep mine rows) ≡ some old)
  view_some [] h = cc
  view_some (r ∷ rows) h = elim (Bool-cases (mine r)) [
    | inl here ↦ (r.operation, rw here refl)
    | inr other ↦ let (old, e) = view_some rows (ground arith) in (old, rw other e)
  ]

upserted-here :
    (v : OutboxRow) (set : Changes) (rows : List OutboxRow)
    → is_pending v ≡ true
    → v.operation ≡ set.operation
    → view (upserted v set rows) v.table_name v.row_id
      ≡ some (merged (view rows v.table_name v.row_id) set.operation)
upserted-here v set rows waits same =
    elim (Bool-cases (any (waits_for v.table_name v.row_id) rows)) [
      | inl there ↦
          let (old, e) = view_some v.table_name v.row_id rows there in
          rw (there, view_here v.table_name v.row_id set rows, e) refl
      | inr new ↦
          let own : waits_for v.table_name v.row_id v ≡ true =
            ground (arith, eq_iff v.table_name v.table_name, eq_iff v.row_id v.row_id) in
          rw
            (
              new,
              view_new v.table_name v.row_id v rows new own,
              view_none v.table_name v.row_id rows new,
            )
            (ap some same)
    ]

upserted-apart :
    (v : OutboxRow) (set : Changes) (rows : List OutboxRow) (table_name row_id : String)
    → (v.table_name == table_name && v.row_id == row_id) ≡ false
    → view (upserted v set rows) table_name row_id ≡ view rows table_name row_id
upserted-apart v set rows table_name row_id other =
    elim (Bool-cases (any (waits_for v.table_name v.row_id) rows)) [
      | inl there ↦ rw there (
          view_apart table_name row_id (waits_for v.table_name v.row_id) set rows (λ r e. ground (
            arith,
            eq_iff r.table_name v.table_name,
            eq_iff r.row_id v.row_id,
            eq_iff r.table_name table_name,
            eq_iff r.row_id row_id,
            eq_iff v.table_name table_name,
            eq_iff v.row_id row_id,
          )))
      | inr new ↦ rw new (view_old table_name row_id v rows (ground arith))
    ]

module _ (t : Outbox) (scope_id : String) where
  enqueue_change-view :
      (change : LocalChange) (stamp : Stamp) (db db' : t.Db) (table_name row_id : String)
      → enqueue_change t scope_id change stamp db ≡ some db'
      → view (t.rows db') table_name row_id
        ≡ record_change change (view (t.rows db)) table_name row_id
  unfolding enqueue_change
  enqueue_change-view change stamp db db' table_name row_id done =
      let v = outbox_values scope_id change stamp in
      let set : Changes = record {
        operation = operation_of change.operation;
        changed_at = stamp.updated_at;
      } in
      rw (t.upsert_lem v set db db' done)
        (elim (Bool-cases (change.table_name == table_name && change.row_id == row_id)) [
          | inl match ↦
              let table : change.table_name ≡ table_name =
                ground (arith, eq_iff change.table_name table_name) in
              let row : change.row_id ≡ row_id = ground (arith, eq_iff change.row_id row_id) in
              rw (match, ← table, ← row) (upserted-here v set (t.rows db) refl refl)
          | inr other ↦ rw other (upserted-apart v set (t.rows db) table_name row_id other)
        ])

  -- The outbox implements the abstract one: behind any number of changes that were written, each row
  -- of each table waits with the operation that the abstract outbox has for it behind the same
  -- changes.
  pub enqueue_all-view :
      (changes : List (LocalChange × Stamp)) (db db' : t.Db)
      → enqueue_all t scope_id changes db ≡ some db'
      → view (t.rows db') ≡ record_all changes (view (t.rows db))
  unfolding enqueue_all
  enqueue_all-view [] db db' done =
      let same : db ≡ db' = cc done in ap (λ d. view (t.rows d)) (sym same)
  enqueue_all-view ((change, stamp) ∷ changes) db db' done =
      elim (Option-cases (enqueue_change t scope_id change stamp db)) [
        | inl failed ↦ cc (rw (enqueue_all, failed) at done)
        | inr (db'', first) ↦
            let rest = enqueue_all-view changes db'' db' (rw (enqueue_all, first) at done) in
            let step : view (t.rows db'') ≡ record_change change (view (t.rows db)) =
              λ i table_name row_id.
                enqueue_change-view change stamp db db'' table_name row_id first i in
            rest ∙ ap (record_all changes) step
      ]

  -- A change with a new id can be written.
  pub enqueue_change-room :
      (change : LocalChange) (stamp : Stamp) (db : t.Db)
      → any (λ r. r.id == (outbox_values scope_id change stamp).id) (t.rows db) ≡ false
      → enqueue_change t scope_id change stamp db ≢ none
  unfolding enqueue_change
  enqueue_change-room change stamp db new =
      t.upsert_room (outbox_values scope_id change stamp) _ db new

abbrev pub touches : String → String → LocalChange × Stamp → Bool
touches table_name row_id (change, stamp) =
    change.table_name == table_name && change.row_id == row_id

abbrev pub is_insert : LocalOperation → Bool
is_insert inserts = true
is_insert updates = false

abbrev pub creates : String → String → LocalChange × Stamp → Bool
creates table_name row_id (change, stamp) =
    touches table_name row_id (change, stamp) && is_insert change.operation

LocalOperation-cases : (o : LocalOperation) → (o ≡ inserts) ⊎ (o ≡ updates)
LocalOperation-cases inserts = inl refl
LocalOperation-cases updates = inr refl

if_same :
    (touched created : Bool)
    → (if created then some insert else (if touched then some update else some update))
      ≡ (if created then some insert else some update)
if_same true created = refl
if_same false created = refl

module _ (table_name row_id : String) where
  insert_stays :
      (changes : List (LocalChange × Stamp)) (v : View)
      → v table_name row_id ≡ some insert
      → record_all changes v table_name row_id ≡ some insert
  insert_stays [] v e = e
  insert_stays ((change, stamp) ∷ changes) v e =
      insert_stays changes (record_change change v)
        (elim (Bool-cases (touches table_name row_id (change, stamp))) [
          | inl here ↦ rw (here, e) refl
          | inr other ↦ rw other e
        ])

  coalesced :
      (changes : List (LocalChange × Stamp)) (v : View)
      → (v table_name row_id ≡ none) ⊎ (v table_name row_id ≡ some update)
      → record_all changes v table_name row_id ≡ (
          if any (creates table_name row_id) changes
          then some insert
          else (if any (touches table_name row_id) changes
              then some update
              else v table_name row_id))
  coalesced [] v h = refl
  coalesced ((change, stamp) ∷ changes) v h =
      let after = record_change change v in
      elim (Bool-cases (touches table_name row_id (change, stamp))) [
        | inr other ↦ rw (coalesced changes after (rw other h), other) refl
        | inl here ↦ elim (LocalOperation-cases change.operation) [
          | inl created ↦
              let e : after table_name row_id ≡ some insert =
                rw (here, created) (elim h [ inl new ↦ rw new refl | inr old ↦ rw old refl ]) in
              rw (insert_stays changes after e, here, created) refl
          | inr changed_again ↦
              let e : after table_name row_id ≡ some update =
                rw (here, changed_again)
                  (elim h [ inl new ↦ rw new refl | inr old ↦ rw old refl ]) in
              rw (coalesced changes after (inr e), e, here, changed_again)
                (if_same (any (touches table_name row_id) changes)
                  (any (creates table_name row_id) changes))
        ]
      ]

-- However many local changes there are of a row that has none waiting, one operation waits for it
-- behind them: an insert if one of them was an insert, an update if there was another change, and
-- nothing if there was none.
pub enqueue_all-coalesced :
    (t : Outbox) (scope_id : String) (changes : List (LocalChange × Stamp)) (db db' : t.Db)
    (table_name row_id : String)
    → view (t.rows db) table_name row_id ≡ none
    → enqueue_all t scope_id changes db ≡ some db'
    → view (t.rows db') table_name row_id ≡ (
        if any (creates table_name row_id) changes
        then some insert
        else (if any (touches table_name row_id) changes then some update else none))
enqueue_all-coalesced t scope_id changes db db' table_name row_id new done =
    let same = ap (λ v. v table_name row_id) (enqueue_all-view t scope_id changes db db' done) in
    let merged_all = coalesced table_name row_id changes (view (t.rows db)) (inl new) in
    same ∙ rw new at merged_all
