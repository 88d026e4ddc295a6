-- ===== src/FkOrder/Computed.antt =====
-- `computeSyncTableOrder` as a whole: what its orders promise, and what its errors mean.
use baresync.Prelude.{
  String, Option, List, ◌≡◌, inl, inr, ok, throw, >>=-eq-ok, >>=-eq-throw, ok-injective,
}
use baresync.Tables.{Table}
use baresync.FkOrder.{
  OrderError, Graph, SyncTableOrder, build_graph, topological_sort, synced_names,
  compute_sync_table_order,
}
use baresync.FkOrder.Relations.{Explains, IsUpsertOrder}
use baresync.FkOrder.Order.{topological_sort-IsUpsertOrder}
use baresync.FkOrder.Errors.{topological_sort-Explains}
use baresync.FkOrder.Acyclic.{IsDeleteOrder, reverse-IsDeleteOrder}
use baresync.FkOrder.Building.{IsGraphOf, build_graph-IsGraphOf}
use baresync.FkOrder.External.{Blames, build_graph-Blames}

-- The orders are those of the dependency graph of the synced part of the schema.
pub record IsOrderOf (tables : List Table) (synced : List String) (order : SyncTableOrder)
    : Type 0 where
  pub nodes : Graph
  pub graph : IsGraphOf tables synced nodes
  pub upsert : IsUpsertOrder nodes order.upsert_order
  pub delete : IsDeleteOrder nodes order.delete_order

-- When `computeSyncTableOrder` returns, there is a graph whose nodes and dependencies are exactly
-- those of the synced tables of the schema; the upsert order names each node once, behind all of its
-- dependencies, and the delete order names each node once, before all of its dependencies.
pub compute_sync_table_order-IsOrderOf :
    (tables : List Table) (synced : Option (List String)) (order : SyncTableOrder)
    → compute_sync_table_order tables synced ≡ ok order
    → IsOrderOf tables (synced_names tables synced) order
unfolding compute_sync_table_order
compute_sync_table_order-IsOrderOf tables synced order e =
    let all_names = synced_names tables synced in
    let (nodes, built, rest) = >>=-eq-ok (build_graph tables all_names) _ e in
    let (upsert_order, sorted, same) = >>=-eq-ok (topological_sort nodes) _ rest in
    let upsert = topological_sort-IsUpsertOrder nodes upsert_order sorted in
    rw (← ok-injective same) (record {
      nodes = nodes;
      graph = build_graph-IsGraphOf tables all_names nodes built;
      upsert = upsert;
      delete = reverse-IsDeleteOrder nodes upsert_order upsert;
    })

-- What an error of the whole computation means.
pub data IsToBlame (tables : List Table) (synced : List String) (e : OrderError) : Type 0 where
  the_schema : Blames tables synced e → IsToBlame tables synced e
  the_graph :
      (nodes : Graph) → IsGraphOf tables synced nodes → Explains nodes e → IsToBlame tables synced e

-- When `computeSyncTableOrder` throws, either a foreign key of the schema is to blame (a required one
-- that leaves the synced tables, or one without a target), or the graph of the synced tables has the
-- cycle or the missing node that the error names. It never runs out of the model's fuel.
pub compute_sync_table_order-IsToBlame :
    (tables : List Table) (synced : Option (List String)) (e : OrderError)
    → compute_sync_table_order tables synced ≡ throw e
    → IsToBlame tables (synced_names tables synced) e
unfolding compute_sync_table_order
compute_sync_table_order-IsToBlame tables synced e thrown =
    let all_names = synced_names tables synced in
    elim (>>=-eq-throw (build_graph tables all_names) _ thrown) [
      | inl first ↦ the_schema (build_graph-Blames tables all_names e first)
      | inr (nodes, built, rest) ↦ elim (>>=-eq-throw (topological_sort nodes) _ rest) [
        | inl later ↦
            the_graph nodes (build_graph-IsGraphOf tables all_names nodes built)
              (topological_sort-Explains nodes e later)
        | inr (order, _, never) ↦ cc
      ]
    ]
