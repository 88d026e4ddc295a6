-- ===== src/FkOrder/Tests.antt =====
-- packages/baresync/src/generator/fk-order.ts on a schema of three tables, and on a cycle.
use baresync.Prelude.{String, true, false, none, some, List, [], ◌∷◌, ◌≡◌, refl, ok, throw}
use baresync.Tables.{Column, ForeignKeyReference, Table}
use baresync.FkOrder.{
  cycle_detected, external_reference, compute_sync_table_order, topological_sort,
}

abbrev column : String → Column
column name = record {
  name = name;
  column_type = "SQLiteText";
  primary = false;
  not_null = true;
  length = none;
}

abbrev refers_to : String → ForeignKeyReference
refers_to name = record { columns = column "ref_id" ∷ []; foreign_tables = name ∷ [] }

abbrev table_named : String → List ForeignKeyReference → Table
table_named name references = record {
  name = name;
  columns = column "id" ∷ [];
  primary_keys = [];
  foreign_keys = references;
  indexes = [];
}

abbrev pub shop : List Table
shop =
    table_named "items" (refers_to "locations" ∷ refers_to "items" ∷ [])
    ∷ table_named "counts" (refers_to "items" ∷ refers_to "locations" ∷ [])
    ∷ table_named "locations" []
    ∷ []

pub shop_order :
    compute_sync_table_order shop none
    ≡ ok (record {
      delete_order = "counts" ∷ "items" ∷ "locations" ∷ [];
      upsert_order = "locations" ∷ "items" ∷ "counts" ∷ [];
    })
unfolding compute_sync_table_order
shop_order = refl

pub looped : topological_sort (("a", "b" ∷ []) ∷ ("b", "a" ∷ []) ∷ []) ≡ throw (cycle_detected "a")
unfolding topological_sort
looped = refl

pub outside :
    compute_sync_table_order shop (some ("items" ∷ "counts" ∷ []))
    ≡ throw (external_reference "items" "locations")
unfolding compute_sync_table_order
outside = refl
