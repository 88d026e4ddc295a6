-- ===== src/FkOrder/Required.antt =====
-- A graph is built only where every required foreign key stays among the synced tables.
use baresync.Prelude.{
  String, true, not, ◌&&◌, List, [], ◌∷◌, ◌≡◌, arith, eq_iff, inl, inr, has, Option-cases, ok,
  >>=-eq-ok,
}
use baresync.Tables.{ForeignKeyReference, Table}
use baresync.FkOrder.{
  Graph, get_node, set_node, keys, add_nodes, is_nullable, add_reference, add_references,
  link_table, link_tables, build_graph,
}
use baresync.FkOrder.Building.{
  refers, names, target_cases, link_table-Linked, has-add_nodes, unlisted-get_node,
}
use baresync.FkOrder.External.{has_required, requires}

module _ (synced : List String) (y : String) where
  add_reference-required :
      (table : String) (r : ForeignKeyReference) (ds es : List String)
      → add_reference synced table r ds ≡ ok es
      → (refers r y && not (is_nullable r)) ≡ true
      → has y synced ≡ true
  unfolding add_reference
  add_reference-required table r ds es e required = elim (target_cases r) [
    | inl absent ↦ cc (rw (absent, add_reference) at e)
    | inr (name, points) ↦
        let linked = rw (points.target, add_reference) at e in
        ground (arith, points.same y, eq_iff name y)
  ]

  add_references-required :
      (table : String) (rs : List ForeignKeyReference) (ds es : List String)
      → add_references synced table rs ds ≡ ok es
      → has_required rs y ≡ true
      → has y synced ≡ true
  unfolding add_references
  add_references-required table [] ds es e required = cc
  add_references-required table (r ∷ rs) ds es e required =
      let (m, first, others) =
        >>=-eq-ok (add_reference synced table r ds) (add_references synced table rs) e in
      ground (
        arith,
        add_reference-required table r ds m first,
        add_references-required table rs m es others,
      )

  link_table-required :
      (t : Table) (nodes nodes' : Graph)
      → link_table synced t nodes ≡ ok nodes'
      → has t.name (keys nodes) ≡ true
      → has_required t.foreign_keys y ≡ true
      → has y synced ≡ true
  unfolding link_table
  link_table-required t nodes nodes' e node required = elim (Option-cases (get_node nodes t.name)) [
    | inl absent ↦ cc (unlisted-get_node nodes t.name absent)
    | inr (ds, found) ↦
        let (es, added, _) =
          >>=-eq-ok (add_references synced t.name t.foreign_keys ds)
            (λ es. ok (set_node nodes t.name es)) (rw (found, link_table) at e) in
        add_references-required t.name t.foreign_keys ds es added required
  ]

  link_tables-required :
      (tables : List Table) (nodes nodes' : Graph) (x : String)
      → link_tables synced tables nodes ≡ ok nodes'
      → has x (keys nodes) ≡ true
      → requires tables x y ≡ true
      → has y synced ≡ true
  unfolding link_tables
  link_tables-required [] nodes nodes' x e node required = cc
  link_tables-required (t ∷ ts) nodes nodes' x e node required =
      let (m, first, others) = >>=-eq-ok (link_table synced t nodes) (link_tables synced ts) e in
      let l = link_table-Linked synced t nodes m first in
      ground (
        arith,
        link_table-required t nodes m first,
        link_tables-required ts m nodes' x others,
        l.same_keys x,
        eq_iff t.name x,
      )

requires-named :
    (tables : List Table) (x y : String) → requires tables x y ≡ true → has x (names tables) ≡ true
unfolding has
requires-named [] x y h = cc
requires-named (t ∷ ts) x y h = ground (arith, requires-named ts x y)

-- Where a graph is built, no required foreign key of a synced table leads out of the synced tables.
pub build_graph-required :
    (tables : List Table) (synced : List String) (nodes : Graph) (x y : String)
    → build_graph tables synced ≡ ok nodes
    → has x synced ≡ true
    → requires tables x y ≡ true
    → has y synced ≡ true
unfolding build_graph has
build_graph-required tables synced nodes x y e is_synced required =
    link_tables-required synced y tables (add_nodes synced tables []) nodes x e
      (ground (arith, has-add_nodes synced tables [] x, requires-named tables x y)) required
