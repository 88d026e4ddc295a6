-- ===== src/FkOrder/External.antt =====
-- `buildGraph` on foreign keys that leave the synced tables.
use baresync.Prelude.{
  String, Bool, true, false, not, ◌&&◌, ◌||◌, List, [], ◌∷◌, ◌≡◌, refl, arith, ◌==◌, eq_iff, inl,
  inr, has, Bool-cases, Option-cases, any, ok, throw, >>=-eq-throw, throw-injective,
}
use baresync.Tables.{ForeignKeyReference, Table}
use baresync.FkOrder.{
  OrderError, missing_target, external_reference, cycle_detected, missing_node, out_of_fuel, Graph,
  get_node, set_node, get_referenced_table_name, add_nodes, is_nullable, add_reference,
  add_references, link_table, link_tables, build_graph, keys,
}
use baresync.FkOrder.Building.{
  refers, target_cases, link_table-Linked, has-add_nodes, listed-get_node,
}

-- Some foreign key of the list is required (not all of its columns are nullable) and refers to `y`.
abbrev pub has_required : List ForeignKeyReference → String → Bool
has_required rs y = any (λ r. refers r y && not (is_nullable r)) rs

-- Some table named `x` has such a foreign key.
abbrev pub requires : List Table → String → String → Bool
requires [] x y = false
requires (t ∷ ts) x y = (t.name == x && has_required t.foreign_keys y) || requires ts x y

-- The reference has no target table.
abbrev pub is_dangling : ForeignKeyReference → Bool
is_dangling r = elim r.foreign_tables [ [] ↦ true | _ ∷ _ ↦ false ]

abbrev pub has_dangling : List Table → Bool
has_dangling [] = false
has_dangling (t ∷ ts) = any is_dangling t.foreign_keys || has_dangling ts

-- What an error says of the schema.
abbrev pub Blames : List Table → List String → OrderError → Type 0
Blames tables synced (external_reference x y) =
    (requires tables x y ≡ true) × (has x synced ≡ true) × (has y synced ≡ false)
Blames tables synced missing_target = has_dangling tables ≡ true
Blames tables synced (cycle_detected x) = ⊥
Blames tables synced (missing_node x) = ⊥
Blames tables synced out_of_fuel = ⊥

abbrev BlamesReferences : List String → String → List ForeignKeyReference → OrderError → Type 0
BlamesReferences synced table rs (external_reference x y) =
    (table ≡ x) × (has_required rs y ≡ true) × (has y synced ≡ false)
BlamesReferences synced table rs missing_target = any is_dangling rs ≡ true
BlamesReferences synced table rs (cycle_detected x) = ⊥
BlamesReferences synced table rs (missing_node x) = ⊥
BlamesReferences synced table rs out_of_fuel = ⊥

BlamesReferences-tail :
    (synced : List String) (table : String) (r : ForeignKeyReference)
    (rs : List ForeignKeyReference) (e : OrderError)
    → BlamesReferences synced table rs e
    → BlamesReferences synced table (r ∷ rs) e
BlamesReferences-tail synced table r rs (external_reference x y) h = ground arith
BlamesReferences-tail synced table r rs missing_target h = ground arith
BlamesReferences-tail synced table r rs e h = h

dangling_of_missing :
    (r : ForeignKeyReference)
    → get_referenced_table_name r ≡ throw missing_target
    → is_dangling r ≡ true
unfolding get_referenced_table_name
dangling_of_missing r e = go r.foreign_tables refl
  where
    go : (ts : List String) → r.foreign_tables ≡ ts → is_dangling r ≡ true
    go [] same = rw (same, is_dangling)
    go (name ∷ ts) same = cc (rw (same, get_referenced_table_name) at e)

external-Blames :
    (synced : List String) (table name : String) (r : ForeignKeyReference)
    (rs : List ForeignKeyReference)
    → refers r name ≡ true
    → is_nullable r ≡ false
    → has name synced ≡ false
    → BlamesReferences synced table (r ∷ rs) (external_reference table name)
external-Blames synced table name r rs p q h = (refl, rw (p, q), h)

add_reference-Blames :
    (synced : List String) (table : String) (r : ForeignKeyReference)
    (rs : List ForeignKeyReference) (ds : List String) (e : OrderError)
    → add_reference synced table r ds ≡ throw e
    → BlamesReferences synced table (r ∷ rs) e
unfolding add_reference
add_reference-Blames synced table r rs ds e thrown = elim (target_cases r) [
  | inl absent ↦
      let here : missing_target ≡ e = throw-injective (rw (absent, add_reference) at thrown) in
      rw (← here) (rw (dangling_of_missing r absent))
  | inr (name, points) ↦
      let linked = rw (points.target, add_reference) at thrown in
      let itself : refers r name ≡ true = ground (arith, points.same name, eq_iff name name) in
      elim (Bool-cases (has name synced)) [
        | inl known ↦ cc (rw known at linked)
        | inr unknown ↦ elim (Bool-cases (is_nullable r)) [
          | inl nullable ↦ cc (rw (unknown, nullable) at linked)
          | inr required ↦
              let here : external_reference table name ≡ e =
                throw-injective (rw (unknown, required) at linked) in
              rw (← here) (external-Blames synced table name r rs itself required unknown)
        ]
      ]
]

add_references-Blames :
    (synced : List String) (table : String) (rs : List ForeignKeyReference) (ds : List String)
    (e : OrderError)
    → add_references synced table rs ds ≡ throw e
    → BlamesReferences synced table rs e
unfolding add_references
add_references-Blames synced table [] ds e thrown = cc
add_references-Blames synced table (r ∷ rs) ds e thrown =
    elim (>>=-eq-throw (add_reference synced table r ds) (add_references synced table rs) thrown) [
      | inl first ↦ add_reference-Blames synced table r rs ds e first
      | inr (m, _, later) ↦
          BlamesReferences-tail synced table r rs e
            (add_references-Blames synced table rs m e later)
    ]

-- An error about one table that is a node is one about the schema.
Blames-head :
    (synced : List String) (t : Table) (ts : List Table) (e : OrderError)
    → has t.name synced ≡ true
    → BlamesReferences synced t.name t.foreign_keys e
    → Blames (t ∷ ts) synced e
Blames-head synced t ts (external_reference x y) node (same, required, outside) =
    ground (arith, eq_iff t.name x)
Blames-head synced t ts missing_target node h = rw h
Blames-head synced t ts (cycle_detected x) node h = h
Blames-head synced t ts (missing_node x) node h = h
Blames-head synced t ts out_of_fuel node h = h

Blames-tail :
    (synced : List String) (t : Table) (ts : List Table) (e : OrderError)
    → Blames ts synced e
    → Blames (t ∷ ts) synced e
Blames-tail synced t ts (external_reference x y) (p, q, r) = (ground arith, q, r)
Blames-tail synced t ts missing_target h = ground arith
Blames-tail synced t ts (cycle_detected x) h = h
Blames-tail synced t ts (missing_node x) h = h
Blames-tail synced t ts out_of_fuel h = h

link_table-Blames :
    (synced : List String) (t : Table) (ts : List Table) (nodes : Graph) (e : OrderError)
    → ((x : String) → has x (keys nodes) ≡ true → has x synced ≡ true)
    → link_table synced t nodes ≡ throw e
    → Blames (t ∷ ts) synced e
unfolding link_table
link_table-Blames synced t ts nodes e nodes_synced thrown =
    elim (Option-cases (get_node nodes t.name)) [
      | inl absent ↦ cc (rw (absent, link_table) at thrown)
      | inr (ds, found) ↦
          elim (>>=-eq-throw (add_references synced t.name t.foreign_keys ds)
            (λ es. ok (set_node nodes t.name es)) (rw (found, link_table) at thrown)) [
              | inl inner ↦
                  Blames-head synced t ts e
                    (nodes_synced t.name (listed-get_node nodes t.name ds found))
                    (add_references-Blames synced t.name t.foreign_keys ds e inner)
              | inr (es, _, never) ↦ cc
            ]
    ]

link_tables-Blames :
    (synced : List String) (tables : List Table) (nodes : Graph) (e : OrderError)
    → ((x : String) → has x (keys nodes) ≡ true → has x synced ≡ true)
    → link_tables synced tables nodes ≡ throw e
    → Blames tables synced e
unfolding link_tables
link_tables-Blames synced [] nodes e nodes_synced thrown = cc
link_tables-Blames synced (t ∷ ts) nodes e nodes_synced thrown =
    elim (>>=-eq-throw (link_table synced t nodes) (link_tables synced ts) thrown) [
      | inl first ↦ link_table-Blames synced t ts nodes e nodes_synced first
      | inr (m, linked, later) ↦
          let l = link_table-Linked synced t nodes m linked in
          Blames-tail synced t ts e
            (link_tables-Blames synced ts m e (λ x k. nodes_synced x (rw l.same_keys at k)) later)
    ]

-- Where building the graph throws, the schema is to blame: an external-reference error names a
-- synced table of the schema with a required foreign key to a table that is not synced; the other
-- error that it can throw means that some foreign key has no target table.
pub build_graph-Blames :
    (tables : List Table) (synced : List String) (e : OrderError)
    → build_graph tables synced ≡ throw e
    → Blames tables synced e
unfolding build_graph has
build_graph-Blames tables synced e thrown =
    link_tables-Blames synced tables (add_nodes synced tables []) e
      (λ x k. ground (arith, has-add_nodes synced tables [] x)) thrown
