-- ===== src/Service/Changes/Tests.antt =====
-- server/service.ts `orderPushChanges` and `orderDeleteChanges` on four changes.
use mathlib.Core.List.{Perm}
use baresync.Prelude.{ℕ, String, List, [], ◌∷◌, ◌≡◌, refl, ok, AllPairs}
use baresync.FkOrder.{Graph, topological_sort}
use baresync.FkOrder.Relations.{DependsOn}
use baresync.FkOrder.Order.{topological_sort-IsUpsertOrder}
use baresync.Service.Changes.{SyncPushChange, order_push_changes, order_delete_changes}
use baresync.Service.Changes.Ordering.{InOrder, order_push_changes-perm, order_push_changes-InOrder}
use baresync.Service.Changes.Parents.{order_push_changes-parents_first}

abbrev change : String → ℕ → SyncPushChange ℕ
change table n = record { table = table; changed_rows = n ∷ []; deleted_ids = [] }

abbrev pushed : List (SyncPushChange ℕ)
pushed = change "notes" 0 ∷ change "items" 1 ∷ change "locations" 2 ∷ change "items" 3 ∷ []

parents_first :
    order_push_changes pushed ("locations" ∷ "items" ∷ [])
    ≡ change "locations" 2 ∷ change "items" 1 ∷ change "items" 3 ∷ change "notes" 0 ∷ []
unfolding order_push_changes
parents_first = refl

children_first :
    order_delete_changes pushed ("locations" ∷ "items" ∷ [])
    ≡ change "items" 1 ∷ change "items" 3 ∷ change "locations" 2 ∷ change "notes" 0 ∷ []
unfolding order_delete_changes
children_first = refl

abbrev two_tables : List String
two_tables = "locations" ∷ "items" ∷ []

abbrev two_nodes : Graph
two_nodes = ("items", "locations" ∷ []) ∷ ("locations", []) ∷ []

two_sorted : topological_sort two_nodes ≡ ok two_tables
unfolding topological_sort
two_sorted = refl

order_push_changes-perm_example : Perm (order_push_changes pushed two_tables) pushed
order_push_changes-perm_example = order_push_changes-perm two_tables pushed

order_push_changes-InOrder_example :
    AllPairs (InOrder two_tables) (order_push_changes pushed two_tables)
order_push_changes-InOrder_example = order_push_changes-InOrder two_tables pushed

order_push_changes-parents_first_example :
    AllPairs (λ c d. ¬ DependsOn two_nodes c.table d.table) (order_push_changes pushed two_tables)
order_push_changes-parents_first_example =
    order_push_changes-parents_first two_nodes two_tables
      (topological_sort-IsUpsertOrder two_nodes two_tables two_sorted) pushed
