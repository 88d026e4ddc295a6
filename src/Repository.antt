-- ===== src/Repository.antt =====
-- packages/baresync/src/server/drizzle.ts. A table's configuration is the application's: its reads
-- and writes are fields of `TableConfig`, `World` is the database they work on, and `Error` is what
-- they throw; `refuse` makes the error of an unsupported table. `Record<TTable, …>` is the list of its keys and
-- a function on them.
pub mod Actions
pub mod Acknowledging
pub mod Applying
pub mod Answers
mod Tests
use baresync.Prelude.{
  ℕ, String, Bool, Option, none, some, List, [], ◌∷◌, ◌==◌, if◌then◌else◌, Result, ok, throw, ◌>>=◌,
}
use baresync.Service.Changes.{SyncPushChange}
use baresync.Service.Rows.{SyncRow, UnsupportedTable, validate_sync_table}
use baresync.Repository.Actions.{and_then, lift}

-- An unknown value of a pushed row: what the code asks is whether it is a text.
pub data Value : Type 0 where
  text : String → Value
  other : Value

-- A pushed row: an object with its fields, or a value that is no object.
pub data Unknown : Type 0 where
  object : List (String × Value) → Unknown
  scalar : Unknown

abbrev pub Fields : Type 0
Fields = List (String × Value)

unfoldable pub as_record : Unknown → Fields
as_record (object fields) = fields
as_record scalar = []

-- `record.name`
unfoldable pub field : String → Fields → Option Value
field name [] = none
field name ((key, value) ∷ fields) =
    let later = field name fields in if key == name then some value else later

pub record BuildInput : Type 0 where
  pub row : Fields
  pub scope_id : String
  pub sync_updated_at : ℕ
  pub updated_at : String

pub record TableConfig (World Error Number Columns WriteRow : Type 0) : Type 0 where
  pub build_row : BuildInput → Result Error WriteRow
  pub read_latest_row : String → World → Option (SyncRow Columns)
  pub read_rows : Number → String → World → List (SyncRow Columns)
  pub soft_delete_row : String → ℕ → String → World → Result Error (Unit {0}) × World
  pub upsert_row : WriteRow → World → Result Error (Unit {0}) × World

pub record PushInput : Type 0 where
  pub changes : List (SyncPushChange Unknown)
  pub scope_id : String
  pub sync_updated_at : ℕ

pub record TableAck : Type 0 where
  pub accepted_created_ids : List String
  pub accepted_deleted_ids : List String
  pub accepted_updated_ids : List String
  pub rejected : List (String × String)
  pub table : String

pub record PushResponse : Type 0 where
  pub server_time : String
  pub tables : List TableAck

-- `.map((row) => asRecord(row).id).filter((id) => typeof id === "string")`
abbrev pub text_or_none : Option Value → Option String
text_or_none (some (text id)) = some id
text_or_none (some other) = none
text_or_none none = none

abbrev pub with_id : Option String → List String → List String
with_id none ids = ids
with_id (some id) ids = id ∷ ids

unfoldable pub text_ids : List Unknown → List String
unfolding as_record field
text_ids [] = []
text_ids (row ∷ rows) = with_id (text_or_none (field "id" (as_record row))) (text_ids rows)

module _ {Error : Type 0} (refuse : UnsupportedTable → Error) (table_names : List String) where
  abbrev pub checked : Result UnsupportedTable String → Result Error String
  checked (ok table) = ok table
  checked (throw reason) = throw (refuse reason)

  unfoldable pub ack_table : SyncPushChange Unknown → Result Error TableAck
  unfolding validate_sync_table text_ids
  ack_table change = do
    table ← checked (validate_sync_table change.table table_names)
    ok (record {
      accepted_created_ids = [];
      accepted_deleted_ids = change.deleted_ids;
      accepted_updated_ids = text_ids change.changed_rows;
      rejected = [];
      table = table;
    })

  unfoldable pub ack_tables : List (SyncPushChange Unknown) → Result Error (List TableAck)
  unfolding ack_table
  ack_tables [] = ok []
  ack_tables (change ∷ changes) = do
    ack ← ack_table change
    acks ← ack_tables changes
    ok (ack ∷ acks)

  unfoldable pub build_push_ack : List (SyncPushChange Unknown) → String → Result Error PushResponse
  unfolding ack_tables
  build_push_ack changes now_iso = do
    tables ← ack_tables changes
    ok (record { server_time = now_iso; tables = tables })

  module _ {World Number Columns WriteRow : Type 0}
      (tables : String → TableConfig World Error Number Columns WriteRow) (iso : ℕ → String)
      (input : PushInput) where
    -- The loop over the changed rows of one change.
    unfoldable pub apply_rows :
        TableConfig World Error Number Columns WriteRow
        → List Unknown
        → World
        → Result Error (Unit {0}) × World
    unfolding as_record
    apply_rows config [] world = (ok tt, world)
    apply_rows config (row ∷ rows) world =
        let built = config.build_row (record {
          row = as_record row;
          scope_id = input.scope_id;
          sync_updated_at = input.sync_updated_at;
          updated_at = iso input.sync_updated_at;
        }) in
        and_then (lift built world) (λ next_row world'.
          and_then (config.upsert_row next_row world')
            (λ _ world''. apply_rows config rows world''))

    -- The loop over the deleted ids of one change.
    unfoldable pub apply_deletions :
        TableConfig World Error Number Columns WriteRow
        → List String
        → World
        → Result Error (Unit {0}) × World
    apply_deletions config [] world = (ok tt, world)
    apply_deletions config (id ∷ ids) world =
        and_then (config.soft_delete_row id input.sync_updated_at (iso input.sync_updated_at) world)
          (λ _ world'. apply_deletions config ids world')

    unfoldable pub apply_change : SyncPushChange Unknown → World → Result Error (Unit {0}) × World
    unfolding apply_rows apply_deletions validate_sync_table
    apply_change change world =
        and_then (lift (checked (validate_sync_table change.table table_names)) world)
          (λ name world'.
            and_then (apply_rows (tables name) change.changed_rows world')
              (λ _ world''. apply_deletions (tables name) change.deleted_ids world''))

    unfoldable pub apply_changes :
        List (SyncPushChange Unknown) → World → Result Error (Unit {0}) × World
    unfolding apply_change
    apply_changes [] world = (ok tt, world)
    apply_changes (change ∷ changes) world =
        and_then (apply_change change world) (λ _ world'. apply_changes changes world')

    unfoldable pub apply_push_changes : String → World → Result Error PushResponse × World
    unfolding apply_changes build_push_ack
    apply_push_changes now_iso world =
        and_then (apply_changes input.changes world)
          (λ _ world'. lift (build_push_ack input.changes now_iso) world')
