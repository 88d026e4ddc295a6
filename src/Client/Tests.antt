-- ===== src/Client/Tests.antt =====
-- packages/baresync/src/tauri/client.ts over an outbox that keeps its rows in a list.
use baresync.Prelude.{
  String, false, Option, none, some, List, [], ◌∷◌, ◌≡◌, ◌≢◌, refl, arith, ◌==◌, if◌then◌else◌, any,
}
use baresync.Client.{
  Operation, insert, update, OutboxRow, Changes, upserted, Outbox, inserts, updates, LocalChange,
  Stamp, enqueue_all,
}
use baresync.Client.Coalescing.{view, record_all, enqueue_all-view, enqueue_all-coalesced}

abbrev upsert_row : OutboxRow → Changes → List OutboxRow → Option (List OutboxRow)
upsert_row v set rows = if any (λ r. r.id == v.id) rows then none else some (upserted v set rows)

upsert_row_lem :
    (v : OutboxRow) (set : Changes) (rows rows' : List OutboxRow)
    → upsert_row v set rows ≡ some rows'
    → rows' ≡ upserted v set rows
upsert_row_lem v set rows rows' e = ground arith

upsert_row_room :
    (v : OutboxRow) (set : Changes) (rows : List OutboxRow)
    → any (λ r. r.id == v.id) rows ≡ false
    → upsert_row v set rows ≢ none
upsert_row_room v set rows new = ground arith

abbrev list_outbox : Outbox
list_outbox = record {
  Db = List OutboxRow;
  rows = λ rows. rows;
  upsert = upsert_row;
  upsert_lem = upsert_row_lem;
  upsert_room = upsert_row_room;
}

abbrev stamp : String → Stamp
stamp text = record { random_id = text; inserted_at = text; updated_at = text }

abbrev created : LocalChange
created = record { operation = inserts; row_id = "r1"; table_name = "items" }

abbrev edited : LocalChange
edited = record { operation = updates; row_id = "r1"; table_name = "items" }

abbrev moved : LocalChange
moved = record { operation = updates; row_id = "r2"; table_name = "items" }

abbrev changes : List (LocalChange × Stamp)
changes = (created, stamp "1") ∷ (moved, stamp "2") ∷ (edited, stamp "3") ∷ []

abbrev row_of : String → String → Operation → String → OutboxRow
row_of id row_id operation time = record {
  id = id;
  table_name = "items";
  row_id = row_id;
  operation = operation;
  payload = none;
  scope_id = "s";
  changed_at = time;
  synced_at = none;
}

abbrev waiting : List OutboxRow
waiting =
    row_of "outbox-insert-items-r1-1" "r1" insert "3"
    ∷ row_of "outbox-update-items-r2-2" "r2" update "2"
    ∷ []

written : enqueue_all list_outbox "s" changes [] ≡ some waiting
unfolding enqueue_all
written = refl

enqueue_all-view_example : view waiting ≡ record_all changes (view [])
enqueue_all-view_example = enqueue_all-view list_outbox "s" changes [] waiting written

enqueue_all-coalesced_example : view waiting "items" "r1" ≡ some insert
enqueue_all-coalesced_example =
    enqueue_all-coalesced list_outbox "s" changes [] waiting "items" "r1" refl written
