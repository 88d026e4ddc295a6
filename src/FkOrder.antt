-- ===== src/FkOrder.antt =====
-- packages/baresync/src/generator/fk-order.ts: the order in which synced tables are written.
-- A `Map` from names to nodes is a list of pairs in insertion order; a `Set` is a list of names.
-- `visit` recurses on fuel, one more than the number of nodes.
pub mod Relations
mod Stack
pub mod Order
pub mod Errors
pub mod Acyclic
pub mod Building
pub mod External
pub mod Required
pub mod Computed
mod Tests
mod Examples
use baresync.Prelude.{
  ℕ, zero, suc, String, Bool, not, Option, none, some, List, [], ◌∷◌, ◌++◌, map, reverse, ◌==◌,
  if◌then◌else◌, length, all, has, add, delete, Result, ok, throw, ◌>>=◌,
}
use baresync.Tables.{ForeignKeyReference, Table}

pub data OrderError : Type 0 where
  missing_target : OrderError
  external_reference : (table referenced : String) → OrderError
  cycle_detected : String → OrderError
  missing_node : String → OrderError
  out_of_fuel : OrderError

-- `Map<string, TableNode>`: each table name with its dependencies.
abbrev pub Graph : Type 0
Graph = List (String × List String)

pub record SyncTableOrder : Type 0 where
  pub delete_order : List String
  pub upsert_order : List String

-- `nodes.get(name)`
unfoldable pub get_node : Graph → String → Option (List String)
get_node [] x = none
get_node ((y, ds) ∷ g) x = if y == x then some ds else get_node g x

-- `nodes.set(name, { dependencies })`: a name that is there keeps its place.
unfoldable pub set_node : Graph → String → List String → Graph
set_node [] x ds = (x, ds) ∷ []
set_node ((y, es) ∷ g) x ds = if y == x then (x, ds) ∷ g else (y, es) ∷ set_node g x ds

unfoldable pub get_referenced_table_name : ForeignKeyReference → Result OrderError String
get_referenced_table_name reference = elim reference.foreign_tables [
  | [] ↦ throw missing_target
  | name ∷ _ ↦ ok name
]

-- The first loop of `buildGraph`: a node with no dependencies for each synced table.
unfoldable pub add_nodes : List String → List Table → Graph → Graph
unfolding has set_node
add_nodes synced [] nodes = nodes
add_nodes synced (table ∷ tables) nodes =
    add_nodes synced tables (if has table.name synced then set_node nodes table.name [] else nodes)

unfoldable pub is_nullable : ForeignKeyReference → Bool
is_nullable reference = all (λ column. not column.not_null) reference.columns

-- The body of the loop over one table's references: the new dependencies of its node.
unfoldable pub add_reference :
    List String → String → ForeignKeyReference → List String → Result OrderError (List String)
unfolding has add is_nullable get_referenced_table_name
add_reference synced table_name reference dependencies = do
  referenced ← get_referenced_table_name reference
  if has referenced synced
      then ok (if referenced == table_name then dependencies else add referenced dependencies)
      else if is_nullable reference
      then ok dependencies
      else throw (external_reference table_name referenced)

unfoldable pub add_references :
    List String → String → List ForeignKeyReference → List String → Result OrderError (List String)
unfolding add_reference
add_references synced table_name [] dependencies = ok dependencies
add_references synced table_name (reference ∷ references) dependencies = do
  extended ← add_reference synced table_name reference dependencies
  add_references synced table_name references extended

-- One round of the second loop: a table without a node is passed over.
unfoldable pub link_table : List String → Table → Graph → Result OrderError Graph
unfolding get_node set_node add_references
link_table synced table nodes = elim (get_node nodes table.name) [
  | none ↦ ok nodes
  | some dependencies ↦ do
    extended ← add_references synced table.name table.foreign_keys dependencies
    ok (set_node nodes table.name extended)
]

unfoldable pub link_tables : List String → List Table → Graph → Result OrderError Graph
unfolding link_table
link_tables synced [] nodes = ok nodes
link_tables synced (table ∷ tables) nodes = do
  linked ← link_table synced table nodes
  link_tables synced tables linked

unfoldable pub build_graph : List Table → List String → Result OrderError Graph
unfolding add_nodes link_tables
build_graph tables synced = link_tables synced tables (add_nodes synced tables [])

-- The variables of `topologicalSort`.
pub record SortState : Type 0 where
  pub ordered : List String
  pub visiting : List String
  pub visited : List String

-- The loop over a node's dependencies, and the loop over all nodes.
unfoldable pub visit_each :
    (String → SortState → Result OrderError SortState)
    → List String
    → SortState
    → Result OrderError SortState
visit_each visit [] s = ok s
visit_each visit (x ∷ xs) s = do s' ← visit x s; visit_each visit xs s'

-- What `visit` does around its loop: `visiting.add` before; `visiting.delete`, `visited.add` and
-- `ordered.push` behind.
unfoldable pub enter : String → SortState → SortState
unfolding add
enter x s = record s { visiting = add x s.visiting }

unfoldable pub leave : String → SortState → SortState
unfolding delete add
leave x s = record {
  ordered = s.ordered ++ x ∷ [];
  visiting = delete x s.visiting;
  visited = add x s.visited;
}

-- `visit` behind its tests, at the node that the map holds.
unfoldable pub explore :
    (String → SortState → Result OrderError SortState)
    → String
    → Option (List String)
    → SortState
    → Result OrderError SortState
unfolding visit_each enter leave
explore visit x none s = throw (missing_node x)
explore visit x (some dependencies) s = do
  s' ← visit_each visit dependencies (enter x s)
  ok (leave x s')

unfoldable pub visit : Graph → ℕ → String → SortState → Result OrderError SortState
unfolding has get_node explore
visit nodes zero x s = throw out_of_fuel
visit nodes (suc fuel) x s =
    let explored = explore (visit nodes fuel) x (get_node nodes x) s in
    if has x s.visited
    then ok s
    else if has x s.visiting
    then throw (cycle_detected x)
    else explored

abbrev pub keys : Graph → List String
keys nodes = map (λ node. node.0) nodes

abbrev pub sort_start : SortState
sort_start = record { ordered = []; visiting = []; visited = [] }

unfoldable pub topological_sort : Graph → Result OrderError (List String)
unfolding visit
topological_sort nodes = do
  s ← visit_each (visit nodes (suc (length nodes))) (keys nodes) sort_start
  ok s.ordered

-- `syncedTableNames ?? …`: without a list every table of the module is synced.
abbrev pub synced_names : List Table → Option (List String) → List String
synced_names tables none = map (λ table. table.name) tables
synced_names tables (some names) = names

unfoldable pub compute_sync_table_order :
    List Table → Option (List String) → Result OrderError SyncTableOrder
unfolding build_graph topological_sort
compute_sync_table_order tables synced = do
  nodes ← build_graph tables (synced_names tables synced)
  upsert_order ← topological_sort nodes
  ok (record { delete_order = reverse upsert_order; upsert_order = upsert_order })
