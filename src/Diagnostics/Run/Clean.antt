-- ===== src/Diagnostics/Run/Clean.antt =====
-- packages/baresync/src/generator/diagnostics.ts: what a contract without errors is.
use baresync.Prelude.{
  ◌≤◌, String, true, false, Option, List, [], ◌∷◌, ◌++◌, map, ◌≡◌, ◌∙◌, refl, sym, arith, length,
  any, any-append, has, All, Distinct, ok, ok-injective,
}
use baresync.Contract.{
  SyncedTableDefinition, SyncContract, GivenLimits, column_names, pk_from_composite,
  define_sync_contract,
}
use baresync.Contract.Laws.{meta_of, contract_of, define_sync_contract-IsSyncable}
use baresync.FkOrder.Building.{names}
use baresync.Diagnostics.{
  error, SyncDiagnostic, on_table, on_column, unless, count_all, pk_from_columns,
  check_missing_primary_key, check_unsupported_primary_key, check_duplicate_table_name,
  check_duplicate_field_name, check_missing_row_state_columns,
}
use baresync.Diagnostics.Keys.{IsTextId, primary_key-passes}
use baresync.Diagnostics.Repeats.{
  check_duplicate_table_name-Distinct, check_duplicate_field_name-Distinct,
}
use baresync.Diagnostics.Emitted.{
  is_error, no_errors, unless-no_errors, missing_key-All, unsupported_key-All, repeats-All,
}
use baresync.Diagnostics.Run.{
  PairedDiagnosticTable, DiagnosticOptions, table_diagnostics, run_diagnostics,
}
use baresync.Diagnostics.Run.Contracts.{all_tables, diagnostics_of, run_diagnostics-contract_of}
use baresync.Diagnostics.Run.Ordering.{order_of, IsOrdered, check_fk-quiet}

-- A table without an error that marks at most one column as its primary key: its columns differ, it
-- has a key, which is a text column `id`, and the columns for the times.
pub record IsClean (def : SyncedTableDefinition) : Type 0 where
  pub distinct : Distinct (column_names def.table)
  pub present : 1 ≤ length (pk_from_columns def.table ++ pk_from_composite def.table)
  pub text_id : All IsTextId (pk_from_columns def.table ++ pk_from_composite def.table)
  pub created_at : has "created_at" (column_names def.table) ≡ true
  pub updated_at : has "updated_at" (column_names def.table) ≡ true

abbrev Quiet : List SyncDiagnostic → Type 0
Quiet ds = any is_error ds ≡ false

Quiet-left : (xs ys : List SyncDiagnostic) → Quiet (xs ++ ys) → Quiet xs
Quiet-left xs ys h = ground (arith, any-append is_error xs ys)

Quiet-right : (xs ys : List SyncDiagnostic) → Quiet (xs ++ ys) → Quiet ys
Quiet-right xs ys h = ground (arith, any-append is_error xs ys)

row_state_columns :
    (table_name : String) (columns : List String)
    → Quiet (check_missing_row_state_columns table_name columns)
    → (has "created_at" columns ≡ true) × (has "updated_at" columns ≡ true)
unfolding check_missing_row_state_columns
row_state_columns table_name columns h =
    let diagnostic = on_column "SYNC_SCHEMA_MISSING_ROW_STATE_COLUMN" error table_name in
    let created = unless (has "created_at" columns) (diagnostic "created_at") in
    let updated = unless (has "updated_at" columns) (diagnostic "updated_at") in
    (
      unless-no_errors _ (diagnostic "created_at") refl (Quiet-left created updated h),
      unless-no_errors _ (diagnostic "updated_at") refl (Quiet-right created updated h),
    )

missing_primary_key :
    (def : SyncedTableDefinition) (table_name : String)
    → Quiet (check_missing_primary_key def table_name)
    → check_missing_primary_key def table_name ≡ []
unfolding check_missing_primary_key
missing_primary_key def table_name h =
    no_errors _
      (missing_key-All (λ d. is_error d ≡ true) table_name refl (pk_from_columns def.table)
        (pk_from_composite def.table))
      h

unsupported_primary_key :
    (def : SyncedTableDefinition) (table_name : String)
    → Quiet (check_unsupported_primary_key def table_name)
    → check_unsupported_primary_key def table_name ≡ []
unfolding check_unsupported_primary_key
unsupported_primary_key def table_name h =
    no_errors _
      (unsupported_key-All (λ d. is_error d ≡ true) table_name (λ n. refl) refl
        (pk_from_columns def.table) (pk_from_composite def.table))
      h

duplicate_field_name :
    (table_name : String) (columns : List String)
    → Quiet (check_duplicate_field_name table_name columns)
    → check_duplicate_field_name table_name columns ≡ []
unfolding check_duplicate_field_name
duplicate_field_name table_name columns h =
    no_errors _
      (repeats-All (λ d. is_error d ≡ true)
        (on_column "SYNC_SCHEMA_DUPLICATE_FIELD_NAME" error table_name) (λ n. refl)
        (count_all columns []))
      h

duplicate_table_name :
    (names : List String)
    → Quiet (check_duplicate_table_name names)
    → check_duplicate_table_name names ≡ []
unfolding check_duplicate_table_name
duplicate_table_name names h =
    no_errors _
      (repeats-All (λ d. is_error d ≡ true) (on_table "SYNC_SCHEMA_DUPLICATE_TABLE_NAME" error)
        (λ n. refl) (count_all names []))
      h

table-Quiet :
    (pairs : List PairedDiagnosticTable) (def : SyncedTableDefinition)
    → Quiet (table_diagnostics pairs def (meta_of def))
    → Quiet (check_missing_primary_key def def.table.name)
      × Quiet (check_unsupported_primary_key def def.table.name)
      × Quiet (check_missing_row_state_columns def.table.name (column_names def.table))
      × Quiet (check_duplicate_field_name def.table.name (column_names def.table))
unfolding table_diagnostics
table-Quiet pairs def h =
    let apart = simp any-append at h in (ground arith, ground arith, ground arith, ground arith)

tables-Quiet :
    (pairs : List PairedDiagnosticTable) (defs : List SyncedTableDefinition)
    → Quiet (all_tables pairs defs)
    → All (λ def. length (pk_from_columns def.table) ≤ 1) defs
    → All IsClean defs
tables-Quiet pairs [] h few = tt
tables-Quiet pairs (def ∷ defs) h few =
    let here = Quiet-left (table_diagnostics pairs def (meta_of def)) (all_tables pairs defs) h in
    let later = Quiet-right (table_diagnostics pairs def (meta_of def)) (all_tables pairs defs) h in
    let name = def.table.name in
    let columns = column_names def.table in
    let (keyed, supported, timed, unrepeated) = table-Quiet pairs def here in
    let (present, text_id) =
      primary_key-passes def name (missing_primary_key def name keyed)
        (unsupported_primary_key def name supported) few.0 in
    let (created_at, updated_at) = row_state_columns name columns timed in
    (
      record {
        distinct =
            check_duplicate_field_name-Distinct name columns
              (duplicate_field_name name columns unrepeated);
        present = present;
        text_id = text_id;
        created_at = created_at;
        updated_at = updated_at;
      },
      tables-Quiet pairs defs later few.1,
    )

-- Where such a contract gets no diagnostic of severity error, the order of its tables can be computed,
-- unless a foreign key has no target metadata.
pub run_diagnostics-IsOrdered :
    (defs : List SyncedTableDefinition) (limits : Option GivenLimits) (options : DiagnosticOptions)
    (ds : List SyncDiagnostic)
    → run_diagnostics (contract_of defs limits) options ≡ ok ds
    → any is_error ds ≡ false
    → IsOrdered (order_of (contract_of defs limits))
run_diagnostics-IsOrdered defs limits options ds ran quiet =
    let c = contract_of defs limits in
    let found : diagnostics_of c options ≡ ds =
      ok-injective (sym (run_diagnostics-contract_of defs limits options) ∙ ran) in
    let apart = simp any-append at (rw (← found) at quiet) in
    check_fk-quiet defs limits (ground arith)

-- Where a contract of `defineSyncContract` gets no diagnostic of severity error, and no table marks
-- two columns as its primary key, then no two tables have the same name; the columns of each table
-- differ, and it has a key, which is a text column `id`, and the columns `created_at` and
-- `updated_at`; and the order of the tables can be computed, unless a foreign key has no target
-- metadata.
pub run_diagnostics-IsClean :
    (defs : List SyncedTableDefinition) (limits : Option GivenLimits) (contract : SyncContract)
    (options : DiagnosticOptions) (ds : List SyncDiagnostic)
    → define_sync_contract defs limits ≡ ok contract
    → run_diagnostics contract options ≡ ok ds
    → any is_error ds ≡ false
    → All (λ def. length (pk_from_columns def.table) ≤ 1) defs
    → Distinct (map (λ m. m.table_name) contract.tables_meta)
      × All IsClean defs
      × IsOrdered (order_of contract)
run_diagnostics-IsClean defs limits contract options ds made ran quiet few =
    let (_, made_of) = (define_sync_contract-IsSyncable defs limits contract).0 made in
    let c = contract_of defs limits in
    let names = map (λ m. m.table_name) c.tables_meta in
    let found : diagnostics_of c options ≡ ds =
      ok-injective (sym (run_diagnostics-contract_of defs limits options) ∙ (rw made_of at ran)) in
    let apart = simp any-append at (rw (← found) at quiet) in
    rw made_of (
      check_duplicate_table_name-Distinct names (duplicate_table_name names (ground arith)),
      tables-Quiet options.paired_tables defs (ground arith) few,
      check_fk-quiet defs limits (ground arith),
    )
