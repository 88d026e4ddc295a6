-- ===== src/FkOrder/Examples.antt =====
-- The theorems on generator/fk-order.ts at small schemas and graphs.
use baresync.Prelude.{none, some, List, [], ◌∷◌, ◌≡◌, refl, ok, String}
use baresync.FkOrder.{external_reference, Graph, SyncTableOrder, topological_sort, synced_names}
use baresync.FkOrder.Tests.{shop, shop_order, outside}
use baresync.FkOrder.Computed.{
  IsOrderOf, IsToBlame, compute_sync_table_order-IsOrderOf, compute_sync_table_order-IsToBlame,
}

abbrev all_three : List String
all_three = "items" ∷ "counts" ∷ "locations" ∷ []

abbrev shop_graph : Graph
shop_graph =
    ("items", "locations" ∷ []) ∷ ("counts", "items" ∷ "locations" ∷ []) ∷ ("locations", []) ∷ []

abbrev shop_orders : SyncTableOrder
shop_orders = record {
  delete_order = "counts" ∷ "items" ∷ "locations" ∷ [];
  upsert_order = "locations" ∷ "items" ∷ "counts" ∷ [];
}

abbrev loop : Graph
loop = ("a", "b" ∷ []) ∷ ("b", "a" ∷ []) ∷ []

shop_sorted : topological_sort shop_graph ≡ ok shop_orders.upsert_order
unfolding topological_sort
shop_sorted = refl

compute_sync_table_order-IsOrderOf_example : IsOrderOf shop (synced_names shop none) shop_orders
compute_sync_table_order-IsOrderOf_example =
    compute_sync_table_order-IsOrderOf shop none shop_orders shop_order

compute_sync_table_order-IsToBlame_example :
    IsToBlame shop
      (synced_names shop (some ("items" ∷ "counts" ∷ [])))
      (external_reference "items" "locations")
compute_sync_table_order-IsToBlame_example =
    compute_sync_table_order-IsToBlame shop (some ("items" ∷ "counts" ∷ []))
      (external_reference "items" "locations") outside
