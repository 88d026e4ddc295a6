-- ===== src/Diagnostics/Run/Ordering.antt =====
-- packages/baresync/src/generator/diagnostics.ts: the check of the foreign keys on a contract.
use baresync.Prelude.{
  String, true, false, ◌||◌, Option, some, List, [], ◌∷◌, map, ◌≡◌, ◌≢◌, ◌∙◌, ap, ◌⊎◌, inl, inr,
  refl, arith, ◌==◌, eq_iff, any, has, All, Result, ok, throw,
}
use baresync.JsObject.Keys.{has-in_key_order}
use baresync.Tables.{Table}
use baresync.Contract.{SyncedTableDefinition, SyncContract, GivenLimits}
use baresync.Contract.Laws.{meta_of, contract_of}
use baresync.FkOrder.{
  OrderError, missing_target, external_reference, cycle_detected, missing_node, out_of_fuel,
  SyncTableOrder, compute_sync_table_order,
}
use baresync.FkOrder.Building.{names}
use baresync.FkOrder.Computed.{the_schema, the_graph, compute_sync_table_order-IsToBlame}
use baresync.Diagnostics.Emitted.{is_error, no_errors, report-All}
use baresync.Diagnostics.ForeignKeys.{
  on_match, tests, message, caught, put_table, put_tables, schema_module,
  check_fk_cycle_and_external_fk,
}
use baresync.Diagnostics.ForeignKeys.Reports.{
  report-silent, report-cycle, report-external, report-mistaken,
}
use baresync.Diagnostics.ForeignKeys.Matching.{IsWord}

-- The order of the tables, where the check of the foreign keys asks for it.
abbrev pub order_of : SyncContract → Result OrderError SyncTableOrder
order_of contract =
    compute_sync_table_order (schema_module contract.tables)
      (some (map (λ m. m.table_name) contract.tables_meta))

-- The order is computed, or an error stands in its way that no diagnostic tells of.
abbrev pub IsOrdered : Result OrderError SyncTableOrder → Type 0
IsOrdered result =
    ((order : SyncTableOrder) × (result ≡ ok order)) ⊎ (result ≡ throw missing_target)

caught-quiet :
    (result : Result OrderError SyncTableOrder)
    → result ≢ throw out_of_fuel
    → ((x : String) → result ≢ throw (missing_node x))
    → caught result ≡ []
    → IsOrdered result
caught-quiet (ok order) ends present h = inl (order, refl)
caught-quiet (throw thrown) ends present h = elim (report-silent thrown h) [
  | inl target ↦ inr (ap throw target)
  | inr (inl fuel) ↦ absurd (ends (ap throw fuel))
  | inr (inr (x, node)) ↦ absurd (present x (ap throw node))
]

has-put_table :
    (tables : List Table) (table : Table) (x : String)
    → has x (names (put_table tables table)) ≡ (has x (names tables) || table.name == x)
unfolding put_table has
has-put_table [] table x = ground arith
has-put_table (t ∷ tables) table x = ground (
  arith,
  has-put_table tables table x,
  eq_iff t.name table.name,
  eq_iff t.name x,
  eq_iff table.name x,
)

has-put_tables :
    (tables : List Table) (defs : List SyncedTableDefinition) (x : String)
    → has x (names (put_tables tables defs))
      ≡ (has x (names tables) || has x (map (λ m. m.table_name) (map meta_of defs)))
unfolding put_tables has
has-put_tables tables [] x = ground arith
has-put_tables tables (def ∷ defs) x = ground (
  arith,
  has-put_tables (put_table tables def.table) defs x,
  has-put_table tables def.table x,
  eq_iff def.table.name x,
)

has-schema_module :
    (defs : List SyncedTableDefinition) (x : String)
    → has x (names (schema_module defs)) ≡ has x (map (λ m. m.table_name) (map meta_of defs))
unfolding schema_module has
has-schema_module defs x =
    has-in_key_order (λ (table : Table). table.name) x (put_tables [] defs)
    ∙ has-put_tables [] defs x

-- Each name that is synced belongs to a table of the schema.
never_missing_node :
    (defs : List SyncedTableDefinition) (limits : Option GivenLimits) (x : String)
    → order_of (contract_of defs limits) ≢ throw (missing_node x)
never_missing_node defs limits x e =
    let synced = map (λ m. m.table_name) (map meta_of defs) in
    elim (compute_sync_table_order-IsToBlame (schema_module defs) (some synced) (missing_node x)
      e) [
        | the_schema blamed ↦ absurd blamed
        | the_graph nodes graph (absent, y, depends) ↦ ground (
          arith,
          absent,
          depends,
          graph.nodes_exactly x,
          graph.dependencies_exactly y x,
          has-schema_module defs x,
        )
      ]

never_out_of_fuel : (contract : SyncContract) → order_of contract ≢ throw out_of_fuel
never_out_of_fuel contract e =
    let synced = map (λ m. m.table_name) contract.tables_meta in
    elim (compute_sync_table_order-IsToBlame (schema_module contract.tables) (some synced)
      out_of_fuel e) [
        | the_schema blamed ↦ absurd blamed
        | the_graph nodes graph explained ↦ absurd explained
      ]

caught-errors :
    (result : Result OrderError SyncTableOrder) → All (λ d. is_error d ≡ true) (caught result)
caught-errors (ok order) = tt
caught-errors (throw thrown) =
    report-All (λ d. is_error d ≡ true) (λ table. refl) (λ table. refl) (message thrown)

pub check_fk-quiet :
    (defs : List SyncedTableDefinition) (limits : Option GivenLimits)
    → any is_error (check_fk_cycle_and_external_fk (contract_of defs limits)) ≡ false
    → IsOrdered (order_of (contract_of defs limits))
unfolding check_fk_cycle_and_external_fk
check_fk-quiet defs limits h =
    let result = order_of (contract_of defs limits) in
    caught-quiet result (never_out_of_fuel (contract_of defs limits))
      (never_missing_node defs limits) (no_errors _ (caught-errors result) h)

-- A cycle is reported with the table at which it was met, where that is named by letters, digits and
-- underscores.
pub check_fk-cycle :
    (contract : SyncContract) (x : String)
    → order_of contract ≡ throw (cycle_detected x)
    → IsWord x
    → check_fk_cycle_and_external_fk contract ≡ on_match "SYNC_SCHEMA_FK_CYCLE" (some x) ∷ []
unfolding check_fk_cycle_and_external_fk
check_fk-cycle contract x e word = rw e (report-cycle x word)

-- A required reference that leaves the synced tables is reported with the table it comes from,
-- where that is named by letters, digits and underscores, unless the error's text has the letters
-- "cycle" in it.
pub check_fk-external :
    (contract : SyncContract) (x y : String)
    → order_of contract ≡ throw (external_reference x y)
    → IsWord x
    → tests "cycle" (message (external_reference x y)) ≡ false
    → check_fk_cycle_and_external_fk contract
      ≡ on_match "SYNC_SCHEMA_REQUIRED_EXTERNAL_FK" (some x) ∷ []
unfolding check_fk_cycle_and_external_fk
check_fk-external contract x y e word other = rw e (report-external x y word other)

-- Where the name of either table has the letters "cycle" in it, a required reference that leaves the
-- synced tables is reported as a cycle of foreign keys, and not as what it is.
pub check_fk-mistaken :
    (contract : SyncContract) (x y : String)
    → order_of contract ≡ throw (external_reference x y)
    → (tests "cycle" x || tests "cycle" y) ≡ true
    → (table : Option String) × (check_fk_cycle_and_external_fk contract
        ≡ on_match "SYNC_SCHEMA_FK_CYCLE" table ∷ [])
unfolding check_fk_cycle_and_external_fk
check_fk-mistaken contract x y e cycle =
    let (table, reported) = report-mistaken x y cycle in (table, rw e reported)
