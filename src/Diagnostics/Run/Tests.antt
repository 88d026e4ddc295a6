-- ===== src/Diagnostics/Run/Tests.antt =====
-- packages/baresync/src/generator/diagnostics.ts and schema/contract.ts on small contracts.
use baresync.Prelude.{
  String, Bool, true, false, Option, none, List, [], ◌∷◌, ◌≡◌, ◌↔◌, refl, arith, any, All, Distinct,
  ok, throw,
}
use baresync.Tables.{Column, ForeignKeyReference, Table}
use baresync.Contract.{
  SyncedTableDefinition, SyncContract, by_name, synced_table, define_sync_contract,
}
use baresync.Casing.Laws.{IsSnake}
use baresync.Contract.Laws.{IsSyncable, contract_of, define_sync_contract-IsSyncable}
use baresync.FkOrder.{external_reference, cycle_detected}
use baresync.Diagnostics.Emitted.{is_error}
use baresync.Diagnostics.ForeignKeys.{on_match, tests, check_fk_cycle_and_external_fk}
use baresync.Diagnostics.Run.{DiagnosticOptions, run_diagnostics}
use baresync.Diagnostics.Run.Contracts.{diagnostics_of, run_diagnostics-contract_of}
use baresync.Diagnostics.Run.Ordering.{order_of, IsOrdered, check_fk-mistaken}
use baresync.Diagnostics.Run.Clean.{IsClean, run_diagnostics-IsClean}

abbrev column : String → Bool → Column
column name primary = record {
  name = name;
  column_type = "SQLiteText";
  primary = primary;
  not_null = true;
  length = none;
}

abbrev columns : List Column
columns =
    column "id" true
    ∷ column "scope_id" false
    ∷ column "created_at" false
    ∷ column "updated_at" false
    ∷ column "deleted_at" false
    ∷ record (column "is_synced" false) { column_type = "SQLiteInteger" }
    ∷ []

abbrev refers_to : String → ForeignKeyReference
refers_to name = record { columns = column "parent_id" false ∷ []; foreign_tables = name ∷ [] }

abbrev table : String → List ForeignKeyReference → Table
table name references = record {
  name = name;
  columns = columns;
  primary_keys = [];
  foreign_keys = references;
  indexes = [];
}

abbrev def : String → List ForeignKeyReference → SyncedTableDefinition
def name references = record {
  table = table name references;
  scope = record { column = column "scope_id" false; field = "scopeId"; source = "scope" };
  local_only_columns = none;
  server_only_columns = none;
}

abbrev options : DiagnosticOptions
options = record { paired_tables = []; previous_tables = none }

abbrev plain : List SyncedTableDefinition
plain = def "items" (refers_to "places" ∷ []) ∷ def "places" [] ∷ []

synced_by_name :
    synced_table (table "items" []) (by_name "scope_id") none none ≡ ok (def "items" [])
unfolding synced_table
synced_by_name = refl

All-IsSnake : All (λ c. IsSnake c.name) columns
All-IsSnake = ground arith

made : define_sync_contract plain none ≡ ok (contract_of plain none)
unfolding define_sync_contract
made = refl

no_error : any is_error (diagnostics_of (contract_of plain none) options) ≡ false
unfolding run_diagnostics
no_error = refl

abbrev with_reference : String → String → SyncContract
with_reference from to = contract_of (def from (refers_to to ∷ []) ∷ []) none

abbrev looped : SyncContract
looped =
    contract_of (def "items" (refers_to "places" ∷ []) ∷ def "places" (refers_to "items" ∷ []) ∷ [])
      none

looped_order : order_of looped ≡ throw (cycle_detected "items")
unfolding check_fk_cycle_and_external_fk
looped_order = refl

mistaken_order :
    order_of (with_reference "motorcycles" "brands")
    ≡ throw (external_reference "motorcycles" "brands")
unfolding check_fk_cycle_and_external_fk
mistaken_order = refl

define_sync_contract-IsSyncable_example :
    (define_sync_contract plain none ≡ ok (contract_of plain none))
    ↔ (All IsSyncable plain × (contract_of plain none ≡ contract_of plain none))
define_sync_contract-IsSyncable_example =
    define_sync_contract-IsSyncable plain none (contract_of plain none)

run_diagnostics-IsClean_example :
    Distinct ("items" ∷ "places" ∷ [])
    × All IsClean plain
    × IsOrdered (order_of (contract_of plain none))
run_diagnostics-IsClean_example =
    run_diagnostics-IsClean plain none (contract_of plain none) options
      (diagnostics_of (contract_of plain none) options) made
      (run_diagnostics-contract_of plain none options) no_error (omega arith, (omega arith, tt))

check_fk-mistaken_example :
    (name : Option String) × (check_fk_cycle_and_external_fk (with_reference "motorcycles" "brands")
      ≡ on_match "SYNC_SCHEMA_FK_CYCLE" name ∷ [])
unfolding tests
check_fk-mistaken_example =
    check_fk-mistaken (with_reference "motorcycles" "brands") "motorcycles" "brands" mistaken_order
      refl
