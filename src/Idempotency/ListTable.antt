-- ===== src/Idempotency/ListTable.antt =====
-- A table of batch requests that keeps its rows in a list: the laws of `BatchTable` can be met.
use baresync.Prelude.{
  ℕ, suc, false, not, Option, none, some, List, [], ◌∷◌, ◌++◌, map, ◌≡◌, ◌≢◌, refl, arith, keep,
  any, if◌then◌else◌,
}
use baresync.Idempotency.Table.{BatchRequest, Values, new_row, patched, conflicts, BatchTable}

pub record Rows : Type 0 where
  pub next_id : ℕ
  pub rows : List BatchRequest

abbrev insert_row : Values → Rows → Option Rows
insert_row v db =
    if any (conflicts v) db.rows
    then none
    else some (record { next_id = suc db.next_id; rows = db.rows ++ new_row db.next_id v ∷ [] })

pub insert_row_lem :
    (v : Values) (db db' : Rows)
    → insert_row v db ≡ some db'
    → (id : ℕ) × (db'.rows ≡ db.rows ++ new_row id v ∷ []) × (any (conflicts v) db.rows ≡ false)
insert_row_lem v db db' e = (db.next_id, ground arith, ground arith)

pub insert_row_room :
    (v : Values) (db : Rows) → any (conflicts v) db.rows ≡ false → insert_row v db ≢ none
insert_row_room v db free = ground arith

abbrev pub list_table : BatchTable
list_table = record {
  Db = Rows;
  rows = λ db. db.rows;
  select = λ p db. keep p db.rows;
  insert = insert_row;
  update = λ f p db. record db { rows = map (λ r. if p r then patched f r else r) db.rows };
  delete = λ p db. record db { rows = keep (λ r. not (p r)) db.rows };
  select_lem = λ p db. refl;
  update_lem = λ f p db. refl;
  delete_lem = λ p db. refl;
  insert_lem = insert_row_lem;
  insert_room = insert_row_room;
}

abbrev pub empty_table : Rows
empty_table = record { next_id = 1; rows = [] }
