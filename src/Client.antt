-- ===== src/Client.antt =====
-- packages/baresync/src/tauri/client.ts, `enqueueChange` and `writeLocalChange`, over the table
-- `sync_outbox` of packages/baresync/src/schema/local-schema.ts. The local database is the parameter
-- `Outbox`, whose laws are what SQL says of an insert with ON CONFLICT over the unique index on the
-- pending rows. The random part of an id and the two times that a change reads are arguments.
pub mod Coalescing
mod Tests
use Prim.Native.String
use baresync.Prelude.{
  ℕ, String, Bool, true, false, ◌&&◌, Option, none, some, List, [], ◌∷◌, ◌++◌, map, ◌≡◌, ◌≢◌, ◌==◌,
  if◌then◌else◌, any, Result, ok, throw, ◌>>=◌,
}

pub data Operation : Type 0 where
  insert update delete : Operation

pub record OutboxRow : Type 0 where
  pub id : String
  pub table_name : String
  pub row_id : String
  pub operation : Operation
  pub payload : Option String
  pub scope_id : String
  pub changed_at : String
  pub synced_at : Option String

abbrev pub is_pending : OutboxRow → Bool
is_pending r = elim r.synced_at [ none ↦ true | some time ↦ false ]

-- The row waits to be pushed, and it is about this row of this table.
abbrev pub waits_for : String → String → OutboxRow → Bool
waits_for table_name row_id r = is_pending r && (r.table_name == table_name && r.row_id == row_id)

-- `CASE WHEN operation = 'insert' THEN 'insert' ELSE … END`
abbrev pub kept_operation : Operation → Operation → Operation
kept_operation insert given = insert
kept_operation update given = given
kept_operation delete given = given

-- The `set` of the conflict: the operation that was given, and the time.
pub record Changes : Type 0 where
  pub operation : Operation
  pub changed_at : String

abbrev pub changed : Changes → OutboxRow → OutboxRow
changed set r = record r {
  operation = kept_operation r.operation set.operation;
  changed_at = set.changed_at;
}

abbrev pub upserted : OutboxRow → Changes → List OutboxRow → List OutboxRow
upserted v set rows =
    if any (waits_for v.table_name v.row_id) rows
    then map (λ r. if waits_for v.table_name v.row_id r then changed set r else r) rows
    else rows ++ v ∷ []

pub record Outbox : Type 1 where
  pub Db : Type 0
  pub rows : Db → List OutboxRow
  -- `none` is a failed statement.
  pub upsert : OutboxRow → Changes → Db → Option Db
  pub upsert_lem :
      (v : OutboxRow) (set : Changes) (db db' : Db)
      → upsert v set db ≡ some db'
      → rows db' ≡ upserted v set (rows db)
  -- A row with a new id can be written.
  pub upsert_room :
      (v : OutboxRow) (set : Changes) (db : Db)
      → any (λ r. r.id == v.id) (rows db) ≡ false
      → upsert v set db ≢ none

-- `LocalChangeOperation`
pub data LocalOperation : Type 0 where
  inserts updates : LocalOperation

abbrev pub operation_of : LocalOperation → Operation
operation_of inserts = insert
operation_of updates = update

abbrev pub operation_text : LocalOperation → String
operation_text inserts = "insert"
operation_text updates = "update"

pub record LocalChange : Type 0 where
  pub operation : LocalOperation
  pub row_id : String
  pub table_name : String

-- What a change reads of the platform: a random text, and the time twice.
pub record Stamp : Type 0 where
  pub random_id : String
  pub inserted_at : String
  pub updated_at : String

abbrev pub dashed : String → String → String
dashed a b = String.◌++◌ a (String.◌++◌ "-" b)

unfoldable pub create_outbox_id : LocalChange → String → String
create_outbox_id change random_id = dashed "outbox" (
    dashed (operation_text change.operation)
      (dashed change.table_name (dashed change.row_id random_id)))

abbrev pub outbox_values : String → LocalChange → Stamp → OutboxRow
outbox_values scope_id change stamp = record {
  id = create_outbox_id change stamp.random_id;
  table_name = change.table_name;
  row_id = change.row_id;
  operation = operation_of change.operation;
  payload = none;
  scope_id = scope_id;
  changed_at = stamp.inserted_at;
  synced_at = none;
}

module _ (t : Outbox) (scope_id : String) where
  unfoldable pub enqueue_change : LocalChange → Stamp → t.Db → Option t.Db
  unfolding create_outbox_id
  enqueue_change change stamp db =
      t.upsert (outbox_values scope_id change stamp)
        (record { operation = operation_of change.operation; changed_at = stamp.updated_at }) db

  -- One change after another.
  unfoldable pub enqueue_all : List (LocalChange × Stamp) → t.Db → Option t.Db
  unfolding enqueue_change
  enqueue_all [] db = some db
  enqueue_all ((change, stamp) ∷ changes) db = elim (enqueue_change change stamp db) [
    | none ↦ none
    | some db' ↦ enqueue_all changes db'
  ]

  -- The error of the outbox's own statement is a parameter.
  abbrev enqueued : {E : Type 0} → E → Option t.Db → Result E t.Db
  enqueued error none = throw error
  enqueued error (some db) = ok db

  unfoldable pub write_local_change :
      {E : Type 0} → E → (t.Db → Result E t.Db) → LocalChange → Stamp → t.Db → Result E t.Db
  unfolding enqueue_change
  write_local_change error write change stamp db = do
    written ← write db
    enqueued error (enqueue_change change stamp written)
