-- ===== src/FkOrder/Building.antt =====
-- `buildGraph`: which nodes and dependencies the graph of a schema has.
use baresync.Prelude.{
  String, Bool, true, false, not, ◌&&◌, ◌||◌, none, some, List, [], ◌∷◌, map, ◌≡◌, refl, ◌∙◌, arith,
  ◌==◌, eq_iff, ◌⊎◌, inl, inr, has, has-add, Bool-cases, Option-cases, any, ok, throw, >>=-eq-ok,
  ok-injective, if◌then◌else◌,
}
use baresync.Tables.{ForeignKeyReference, Table}
use baresync.FkOrder.{
  missing_target, Graph, get_node, set_node, keys, get_referenced_table_name, add_nodes,
  add_reference, add_references, link_table, link_tables, build_graph,
}
use baresync.FkOrder.Relations.{dependencies}

-- The reference points to the table `y`.
abbrev pub refers : ForeignKeyReference → String → Bool
refers reference y = elim reference.foreign_tables [ [] ↦ false | name ∷ _ ↦ name == y ]

abbrev pub names : List Table → List String
names tables = map (λ table. table.name) tables

-- Some table named `x` has a foreign key to `y`.
abbrev pub declares : List Table → String → String → Bool
declares [] x y = false
declares (t ∷ ts) x y = (t.name == x && any (λ r. refers r y) t.foreign_keys) || declares ts x y

get_node-set_node :
    (nodes : Graph) (x y : String) (ds : List String)
    → get_node (set_node nodes x ds) y ≡ (if x == y then some ds else get_node nodes y)
unfolding get_node set_node
get_node-set_node [] x y ds = refl
get_node-set_node ((z, es) ∷ nodes) x y ds =
    ground (arith, get_node-set_node nodes x y ds, eq_iff z x, eq_iff x y, eq_iff z y)

has-set_node :
    (nodes : Graph) (x y : String) (ds : List String)
    → has y (keys (set_node nodes x ds)) ≡ (has y (keys nodes) || x == y)
unfolding set_node has
has-set_node [] x y ds = ground arith
has-set_node ((z, es) ∷ nodes) x y ds = elim (Bool-cases (z == x)) [
  | inl same ↦ rw same (ground (arith, eq_iff z x, eq_iff z y, eq_iff x y))
  | inr other ↦ rw other (ground (arith, has-set_node nodes x y ds))
]

pub has-add_nodes :
    (synced : List String) (tables : List Table) (nodes : Graph) (x : String)
    → has x (keys (add_nodes synced tables nodes))
      ≡ (has x (keys nodes) || has x (names tables) && has x synced)
unfolding add_nodes has
has-add_nodes synced [] nodes x = ground arith
has-add_nodes synced (t ∷ ts) nodes x = elim (Bool-cases (has t.name synced)) [
  | inl is_synced ↦
      rw (is_synced, has-add_nodes synced ts (set_node nodes t.name []) x)
        (ground (arith, has-set_node nodes t.name x [], eq_iff t.name x))
  | inr unsynced ↦ rw (unsynced, has-add_nodes synced ts nodes x) (ground (arith, eq_iff t.name x))
]

-- Before any table is linked no node has a dependency.
dependencies-add_nodes :
    (synced : List String) (tables : List Table) (nodes : Graph)
    → ((x : String) → dependencies nodes x ≡ [])
    → (x : String) → dependencies (add_nodes synced tables nodes) x ≡ []
unfolding add_nodes
dependencies-add_nodes synced [] nodes bare x = bare x
dependencies-add_nodes synced (t ∷ ts) nodes bare x = elim (Bool-cases (has t.name synced)) [
  | inl is_synced ↦ rw is_synced (
      dependencies-add_nodes synced ts (set_node nodes t.name [])
        (λ y. ground (arith, get_node-set_node nodes t.name y [], bare y)) x)
  | inr unsynced ↦ rw unsynced (dependencies-add_nodes synced ts nodes bare x)
]

-- The table that a reference points to, where it has one.
pub record PointsTo (r : ForeignKeyReference) (name : String) : Type 0 where
  pub target : get_referenced_table_name r ≡ ok name
  pub same : (y : String) → refers r y ≡ (name == y)

pub target_cases :
    (r : ForeignKeyReference)
    → (get_referenced_table_name r ≡ throw missing_target) ⊎ ((name : String) × PointsTo r name)
unfolding get_referenced_table_name
target_cases r = go r.foreign_tables refl
  where
    go :
        (ts : List String)
        → r.foreign_tables ≡ ts
        → (get_referenced_table_name r ≡ throw missing_target) ⊎ ((name : String) × PointsTo r name)
    go [] e = inl (rw (e, get_referenced_table_name))
    go (name ∷ ts) e =
        inr
          (name, record { target = rw (e, get_referenced_table_name); same = λ y. rw (e, refers) })

has-add_reference :
    (synced : List String) (table : String) (r : ForeignKeyReference) (ds es : List String)
    (y : String)
    → add_reference synced table r ds ≡ ok es
    → has y es ≡ (has y ds || (refers r y && (has y synced && not (table == y))))
unfolding add_reference
has-add_reference synced table r ds es y e = elim (target_cases r) [
  | inl absent ↦ cc (rw (absent, add_reference) at e)
  | inr (name, points) ↦
      let linked = rw (points.target, add_reference) at e in
      rw (points.same y)
        (ground (arith, has-add y name ds, eq_iff name table, eq_iff name y, eq_iff table y))
]

has-add_references :
    (synced : List String) (table : String) (rs : List ForeignKeyReference) (ds es : List String)
    (y : String)
    → add_references synced table rs ds ≡ ok es
    → has y es ≡ (has y ds || (any (λ r. refers r y) rs && (has y synced && not (table == y))))
unfolding add_references
has-add_references synced table [] ds es y e = ground arith
has-add_references synced table (r ∷ rs) ds es y e =
    let (m, first, others) =
      >>=-eq-ok (add_reference synced table r ds) (add_references synced table rs) e in
    ground (
      arith,
      has-add_reference synced table r ds m y first,
      has-add_references synced table rs m es y others,
    )

-- What linking one table leaves of the graph.
pub record Linked (synced : List String) (t : Table) (nodes nodes' : Graph) : Type 0 where
  pub same_keys : (x : String) → has x (keys nodes') ≡ has x (keys nodes)
  pub extended :
      (x y : String)
      → has y (dependencies nodes' x) ≡ (
          has y (dependencies nodes x)
          || ((t.name == x && any (λ r. refers r y) t.foreign_keys)
              && (has x (keys nodes) && (has y synced && not (x == y)))))

pub unlisted-get_node :
    (nodes : Graph) (x : String) → get_node nodes x ≡ none → has x (keys nodes) ≡ false
unfolding get_node has
unlisted-get_node [] x e = refl
unlisted-get_node ((y, es) ∷ nodes) x e = elim (Bool-cases (y == x)) [
  | inl here ↦ absurd (ground arith)
  | inr later ↦ rw later (unlisted-get_node nodes x (rw later at e))
]

pub listed-get_node :
    (nodes : Graph) (x : String) (ds : List String)
    → get_node nodes x ≡ some ds
    → has x (keys nodes) ≡ true
unfolding get_node has
listed-get_node [] x ds e = cc
listed-get_node ((y, es) ∷ nodes) x ds e = elim (Bool-cases (y == x)) [
  | inl here ↦ rw here
  | inr later ↦ rw later (listed-get_node nodes x ds (rw later at e))
]

link_found :
    (synced : List String) (t : Table) (nodes : Graph) (ds es : List String)
    → get_node nodes t.name ≡ some ds
    → add_references synced t.name t.foreign_keys ds ≡ ok es
    → Linked synced t nodes (set_node nodes t.name es)
link_found synced t nodes ds es found added =
    let listed = listed-get_node nodes t.name ds found in
    record {
      same_keys = λ x. ground (arith, has-set_node nodes t.name x es, eq_iff t.name x);
      extended = λ x y. ground (
        arith,
        get_node-set_node nodes t.name x es,
        has-add_references synced t.name t.foreign_keys ds es y added,
        eq_iff t.name x,
      );
    }

pub link_table-Linked :
    (synced : List String) (t : Table) (nodes nodes' : Graph)
    → link_table synced t nodes ≡ ok nodes'
    → Linked synced t nodes nodes'
unfolding link_table
link_table-Linked synced t nodes nodes' e = elim (Option-cases (get_node nodes t.name)) [
  | inl absent ↦
      let unlisted = unlisted-get_node nodes t.name absent in
      let same : nodes ≡ nodes' = ok-injective (rw (absent, link_table) at e) in
      rw (← same)
        (record { same_keys = λ x. refl; extended = λ x y. ground (arith, eq_iff t.name x) })
  | inr (ds, found) ↦
      let (es, added, set) =
        >>=-eq-ok (add_references synced t.name t.foreign_keys ds)
          (λ es. ok (set_node nodes t.name es)) (rw (found, link_table) at e) in
      rw (← ok-injective set) (link_found synced t nodes ds es found added)
]

module _ (synced : List String) where
  link_tables-keys :
      (tables : List Table) (nodes nodes' : Graph) (x : String)
      → link_tables synced tables nodes ≡ ok nodes'
      → has x (keys nodes') ≡ has x (keys nodes)
  unfolding link_tables
  link_tables-keys [] nodes nodes' x e = ground arith
  link_tables-keys (t ∷ ts) nodes nodes' x e =
      let (m, first, others) = >>=-eq-ok (link_table synced t nodes) (link_tables synced ts) e in
      link_tables-keys ts m nodes' x others ∙ (link_table-Linked synced t nodes m first).same_keys x

  link_tables-dependencies :
      (tables : List Table) (nodes nodes' : Graph) (x y : String)
      → link_tables synced tables nodes ≡ ok nodes'
      → has y (dependencies nodes' x) ≡ (
          has y (dependencies nodes x)
          || (declares tables x y && (has x (keys nodes) && (has y synced && not (x == y)))))
  unfolding link_tables
  link_tables-dependencies [] nodes nodes' x y e = ground arith
  link_tables-dependencies (t ∷ ts) nodes nodes' x y e =
      let (m, first, others) = >>=-eq-ok (link_table synced t nodes) (link_tables synced ts) e in
      let l = link_table-Linked synced t nodes m first in
      rw (link_tables-dependencies ts m nodes' x y others)
        (ground (arith, l.same_keys x, l.extended x y))

declares-named :
    (tables : List Table) (x y : String) → declares tables x y ≡ true → has x (names tables) ≡ true
unfolding has
declares-named [] x y h = cc
declares-named (t ∷ ts) x y h = ground (arith, declares-named ts x y)

-- The graph of a schema, where one is built. Its nodes are exactly the tables of the schema that
-- are synced. A node depends on a table exactly if some table of its name has a foreign key to that
-- other table and that table is synced: references to the table itself and to tables that are not
-- synced leave no trace.
pub record IsGraphOf (tables : List Table) (synced : List String) (nodes : Graph) : Type 0 where
  pub nodes_exactly : (x : String) → has x (keys nodes) ≡ (has x (names tables) && has x synced)
  pub dependencies_exactly :
      (x y : String)
      → has y (dependencies nodes x)
        ≡ (declares tables x y && (has x synced && (has y synced && not (x == y))))

-- A graph that is built has a node for each synced table of the schema and no other, and its
-- dependencies are exactly the foreign keys from one synced table to another that is not itself.
pub build_graph-IsGraphOf :
    (tables : List Table) (synced : List String) (nodes : Graph)
    → build_graph tables synced ≡ ok nodes
    → IsGraphOf tables synced nodes
unfolding build_graph has get_node
build_graph-IsGraphOf tables synced nodes e =
    let start = add_nodes synced tables [] in
    let bare = dependencies-add_nodes synced tables [] (λ x. refl) in
    record {
      nodes_exactly =
          λ x. link_tables-keys synced tables start nodes x e ∙ has-add_nodes synced tables [] x;
      dependencies_exactly = λ x y. ground (
        arith,
        link_tables-dependencies synced tables start nodes x y e,
        bare x,
        has-add_nodes synced tables [] x,
        declares-named tables x y,
      );
    }
